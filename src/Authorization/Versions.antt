-- ===== src/Authorization/Versions.antt =====
-- What a run of publications does to the version that subscribers read.
use tunnel_proxy.Common.{
  ◌≤◌, ◌<◌, ◌≡◌, refl, ◌∙◌, ◌⊎◌, inl, inr, Bool, Bool-cases, List, [], ◌∷◌, ltb, ◌==◌, arith,
}
use tunnel_proxy.Authorization.Publisher.{
  Watch, VersionedAuthorizationSnapshot, SnapshotPublisherState, authorization_snapshot_channel,
  publish, set_source_health, subscription_current, Call, publishes, sets_health, step, run,
}

module _ {Snapshot Channel : Type 0}
    (watch : Watch (VersionedAuthorizationSnapshot Snapshot) Channel)
    (same : Snapshot → Snapshot → Bool) where
  abbrev pub IsSynced : SnapshotPublisherState Snapshot Channel → Type 0
  IsSynced s = subscription_current watch same s ≡ s.current

  -- From one state to a later one: versions go up, a version keeps its content, and subscribers
  -- read what was published last.
  pub record Follows (s s' : SnapshotPublisherState Snapshot Channel) : Type 0 where
    pub up : s.current.version ≤ s'.current.version
    pub fixed : s.current.version ≡ s'.current.version → s.current ≡ s'.current
    pub synced : IsSynced s'

  abbrev published :
      SnapshotPublisherState Snapshot Channel
      → VersionedAuthorizationSnapshot Snapshot
      → SnapshotPublisherState Snapshot Channel
  published s candidate = record s {
    current = candidate;
    updates = watch.send_replace s.updates candidate;
  }

  -- Only a greater version is published; any other leaves the state as it is.
  publish-cases :
      (s : SnapshotPublisherState Snapshot Channel)
      (candidate : VersionedAuthorizationSnapshot Snapshot)
      → ((publish watch same s candidate).1 ≡ s)
        ⊎ ((s.current.version < candidate.version)
            × ((publish watch same s candidate).1 ≡ published s candidate))
  unfolding publish
  publish-cases s candidate = elim (Bool-cases (ltb candidate.version s.current.version)) [
    | inl less ↦ inl (rw less refl)
    | inr more ↦ elim (Bool-cases (candidate.version == s.current.version)) [
      | inr ne ↦ inr (ground arith, rw (more, ne) refl)
      | inl equal ↦ elim (Bool-cases (same candidate.snapshot s.current.snapshot)) [
        | inl content ↦ inl (rw (more, equal, content) refl)
        | inr content ↦ inl (rw (more, equal, content) refl)
      ]
    ]
  ]

  Follows-refl : (s : SnapshotPublisherState Snapshot Channel) → IsSynced s → Follows s s
  Follows-refl s h = record { up = omega arith; fixed = λ e. refl; synced = h }

  step-Follows :
      (s : SnapshotPublisherState Snapshot Channel) (c : Call watch same)
      → IsSynced s
      → Follows s (step watch same s c)
  unfolding step set_source_health subscription_current
  step-Follows s (sets_health health) h = record {
    up = omega arith;
    fixed = λ e. refl;
    synced = watch.borrow-send_replace s.updates s.current;
  }
  step-Follows s (publishes candidate) h = elim (publish-cases s candidate) [
    | inl kept ↦ rw kept (Follows-refl s h)
    | inr (more, moved) ↦ rw moved (record {
      up = omega arith;
      fixed = λ e. absurd (omega arith);
      synced = watch.borrow-send_replace s.updates candidate;
    })
  ]

  Follows-trans :
      (s t u : SnapshotPublisherState Snapshot Channel) → Follows s t → Follows t u → Follows s u
  Follows-trans s t u p q = record {
    up = omega (arith, p.up, q.up);
    fixed = λ e. p.fixed (omega (arith, p.up, q.up)) ∙ q.fixed (omega (arith, p.up, q.up));
    synced = q.synced;
  }

  -- Over any run of publications, accepted or rejected, and changes of health: the version that is
  -- current never goes down, a version never gets another content, and subscribers read the
  -- current snapshot.
  pub run-Follows :
      (s : SnapshotPublisherState Snapshot Channel) (cs : List (Call watch same))
      → IsSynced s
      → Follows s (run watch same s cs)
  unfolding run
  run-Follows s [] h = Follows-refl s h
  run-Follows s (c ∷ cs) h =
      let first = step-Follows s c h in
      Follows-trans s _ _ first (run-Follows (step watch same s c) cs first.synced)

  pub authorization_snapshot_channel-IsSynced :
      (initial : VersionedAuthorizationSnapshot Snapshot)
      → IsSynced (authorization_snapshot_channel watch same initial)
  unfolding authorization_snapshot_channel subscription_current
  authorization_snapshot_channel-IsSynced initial = watch.borrow-channel initial
