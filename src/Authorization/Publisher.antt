-- ===== src/Authorization/Publisher.antt =====
-- `AuthorizationSnapshotPublisher` and the subscriptions to it. The mutex makes each call one step.
-- The `watch` channel is a parameter with its documented contract, and so is the equality of
-- snapshots, which compares maps.
use tunnel_proxy.Common.{
  ℕ, ◌≡◌, Bool, List, [], ◌∷◌, ltb, ◌==◌, if◌then◌else◌, Option, none, some, refl,
}
use tunnel_proxy.Common.Results.{Result, ok, err}

-- A channel that holds the latest value sent.
pub record Watch (Value Channel : Type 0) : Type 0 where
  pub channel : Value → Channel
  pub send_replace : Channel → Value → Channel
  pub borrow : Channel → Value
  pub borrow-channel : (v : Value) → borrow (channel v) ≡ v
  pub borrow-send_replace : (c : Channel) (v : Value) → borrow (send_replace c v) ≡ v

pub data SnapshotSourceHealth : Type 0 where
  live stale : SnapshotSourceHealth

pub record VersionedAuthorizationSnapshot (Snapshot : Type 0) : Type 0 where
  pub version : ℕ
  pub snapshot : Snapshot

pub data SnapshotPublishOutcome : Type 0 where
  applied : ℕ → ℕ → SnapshotPublishOutcome
  unchanged : ℕ → SnapshotPublishOutcome

pub data SnapshotUpdateError : Type 0 where
  stale_version : ℕ → ℕ → SnapshotUpdateError
  conflicting_version : ℕ → SnapshotUpdateError

pub record SnapshotPublisherState (Snapshot Channel : Type 0) : Type 0 where
  pub current : VersionedAuthorizationSnapshot Snapshot
  pub updates : Channel
  pub health : SnapshotSourceHealth

module _ {Snapshot Channel : Type 0}
    (watch : Watch (VersionedAuthorizationSnapshot Snapshot) Channel)
    (same : Snapshot → Snapshot → Bool) where
  unfoldable pub authorization_snapshot_channel :
      VersionedAuthorizationSnapshot Snapshot → SnapshotPublisherState Snapshot Channel
  authorization_snapshot_channel initial = record {
    current = initial;
    updates = watch.channel initial;
    health = live;
  }

  unfoldable pub publish :
      SnapshotPublisherState Snapshot Channel
      → VersionedAuthorizationSnapshot Snapshot
      → Result SnapshotUpdateError SnapshotPublishOutcome × SnapshotPublisherState Snapshot Channel
  publish s candidate =
      if ltb candidate.version s.current.version
      then (err (stale_version s.current.version candidate.version), s)
      else if candidate.version == s.current.version
      then if same candidate.snapshot s.current.snapshot
        then (ok (unchanged s.current.version), s)
        else (err (conflicting_version s.current.version), s)
      else (
        ok (applied s.current.version candidate.version),
        record s { current = candidate; updates = watch.send_replace s.updates candidate },
      )

  unfoldable pub set_source_health :
      SnapshotPublisherState Snapshot Channel
      → SnapshotSourceHealth
      → SnapshotPublisherState Snapshot Channel
  set_source_health s health = record s {
    health = health;
    updates = watch.send_replace s.updates s.current;
  }

  -- What a subscription reads.
  unfoldable pub subscription_current :
      SnapshotPublisherState Snapshot Channel → VersionedAuthorizationSnapshot Snapshot
  subscription_current s = watch.borrow s.updates

  pub data Call : Type 0 where
    publishes : VersionedAuthorizationSnapshot Snapshot → Call
    sets_health : SnapshotSourceHealth → Call

  unfoldable pub step :
      SnapshotPublisherState Snapshot Channel → Call → SnapshotPublisherState Snapshot Channel
  step s (publishes candidate) = (publish s candidate).1
  step s (sets_health health) = set_source_health s health

  unfoldable pub run :
      SnapshotPublisherState Snapshot Channel → List Call → SnapshotPublisherState Snapshot Channel
  run s [] = s
  run s (c ∷ cs) = run (step s c) cs

-- `SnapshotVersion::new`: a version is not 0.
unfoldable pub snapshot_version_new : ℕ → Option ℕ
snapshot_version_new value = if value == 0 then none else some value

-- The health as a byte, and back: whatever is not live counts as stale.
unfoldable pub health_as_u8 : SnapshotSourceHealth → ℕ
health_as_u8 live = 1
health_as_u8 stale = 2

unfoldable pub health_from_raw : ℕ → SnapshotSourceHealth
health_from_raw raw = if raw == 1 then live else stale

pub health_from_raw-health_as_u8 : (h : SnapshotSourceHealth) → health_from_raw (health_as_u8 h) ≡ h
unfolding health_from_raw health_as_u8
health_from_raw-health_as_u8 live = refl
health_from_raw-health_as_u8 stale = refl

abbrev pub versioned_new :
    {Snapshot : Type 0} → ℕ → Snapshot → VersionedAuthorizationSnapshot Snapshot
versioned_new version snapshot = record { version = version; snapshot = snapshot }
