-- ===== src/RequestHistory/Invariant.antt =====
-- The history stays bounded and its counters agree with its entries.
use tunnel_proxy.Common.{
  ℕ, zero, suc, ◌+◌, ◌≤◌, ◌<◌, ◌≡◌, refl, ap, subst, min, false, ◌&&◌, leb, ◌≢◌, Bool-cases, inl,
  inr, List, [], ◌∷◌, ◌++◌, ◌==◌, length, length-append, arith,
}
use tunnel_proxy.Common.Results.{ok}
use tunnel_proxy.RequestHistory.Model.{
  RequestHistoryEntry, RequestHistoryState, RequestHistoryPending, RequestHistoryOutcome,
  max_request_history_entries, u64_max, saturating_add_one, index, forwarded, local_unavailable,
  timeout, rejected, new, pop_front, count_outcome, next_after, evict, entry_of, record_request,
}

-- The entries bear the numbers from `n` on, one after the other.
abbrev pub Numbered : ℕ → List RequestHistoryEntry → Type 0
Numbered n [] = Unit {0}
Numbered n (e ∷ es) = (e.request_id ≡ n) × Numbered (suc n) es

abbrev pub sum : List ℕ → ℕ
sum [] = 0
sum (n ∷ ns) = n + sum ns

pub record IsValid (s : RequestHistoryState) : Type 0 where
  pub positive : 0 < s.capacity
  pub limited : s.capacity ≤ max_request_history_entries
  pub kept : length s.entries ≡ min s.recorded_total s.capacity
  pub evicted : s.evicted_total + length s.entries ≡ s.recorded_total
  pub numbered : Numbered (suc s.evicted_total) s.entries
  pub counted : sum s.outcomes ≡ s.recorded_total
  pub four : length s.outcomes ≡ 4
  pub in_range : s.recorded_total ≤ u64_max
  pub next : s.next_id ≡ next_after s.recorded_total

Numbered-append :
    (n : ℕ) (es : List RequestHistoryEntry) (e : RequestHistoryEntry)
    → Numbered n es
    → e.request_id ≡ n + length es
    → Numbered n (es ++ e ∷ [])
Numbered-append n [] e h k = (omega arith, tt)
Numbered-append n (x ∷ es) e h k = (h.0, Numbered-append (suc n) es e h.1 (omega arith))

-- A counter that is not at its maximum goes up by one, and no other changes.
count_outcome-sum :
    (i : ℕ) (ns : List ℕ)
    → i < length ns
    → sum ns < u64_max
    → (sum (count_outcome i ns) ≡ suc (sum ns)) × (length (count_outcome i ns) ≡ length ns)
unfolding count_outcome
count_outcome-sum i [] h k = absurd (omega arith)
count_outcome-sum zero (n ∷ ns) h k = (omega arith, refl)
count_outcome-sum (suc i) (n ∷ ns) h k =
    let (p, q) = count_outcome-sum i ns (omega arith) (omega arith) in
    (omega (arith, p), omega (arith, q))

index-lt : (o : RequestHistoryOutcome) → index o < 4
index-lt forwarded = omega arith
index-lt local_unavailable = omega arith
index-lt timeout = omega arith
index-lt rejected = omega arith

pub new-IsValid : (n : ℕ) (s : RequestHistoryState) → new n ≡ ok s → IsValid s
unfolding new next_after
new-IsValid n s h = elim (Bool-cases (leb 1 n && leb n max_request_history_entries)) [
  | inr bad ↦ absurd (let h' = rw bad at h in cc h')
  | inl fine ↦
      let s₀ : RequestHistoryState = record {
        capacity = n;
        next_id = 1;
        recorded_total = 0;
        evicted_total = 0;
        sequence_exhaustions = 0;
        outcomes = 0 ∷ 0 ∷ 0 ∷ 0 ∷ [];
        entries = [];
      } in
      let same : s₀ ≡ s = let h' = rw fine at h in cc h' in
      subst IsValid same (record {
        positive = ground arith;
        limited = ground arith;
        kept = omega arith;
        evicted = refl;
        numbered = tt;
        counted = refl;
        four = refl;
        in_range = omega arith;
        next = refl;
      })
]

next_id-eq :
    (s : RequestHistoryState)
    → IsValid s
    → (s.next_id == 0) ≡ false
    → (s.next_id ≡ suc s.recorded_total) × (s.recorded_total < u64_max)
unfolding next_after
next_id-eq s v h = ground (arith, v.next, v.in_range)

-- A recorded request, once there is room: `es` and `evicted` are left by the eviction.
recorded-IsValid :
    (s : RequestHistoryState) (p : RequestHistoryPending) (status elapsed evicted : ℕ)
    (es : List RequestHistoryEntry)
    → IsValid s
    → (s.next_id == 0) ≡ false
    → evicted + length es ≡ s.recorded_total
    → suc (length es) ≡ min (suc s.recorded_total) s.capacity
    → Numbered (suc evicted) es
    → IsValid (record s {
      next_id = next_after s.next_id;
      recorded_total = saturating_add_one s.recorded_total;
      evicted_total = evicted;
      outcomes = count_outcome (index p.outcome) s.outcomes;
      entries = es ++ entry_of s.next_id p status elapsed ∷ [];
    })
unfolding entry_of
recorded-IsValid s p status elapsed evicted es v live total room numbers =
    let (id, below) = next_id-eq s v live in
    let (more, same) =
      count_outcome-sum (index p.outcome) s.outcomes (omega (arith, index-lt p.outcome, v.four))
        (omega (arith, v.counted)) in
    let longer = length-append es (entry_of s.next_id p status elapsed ∷ []) in
    record {
      positive = v.positive;
      limited = v.limited;
      kept = omega (arith, longer, room, below);
      evicted = omega (arith, longer, total, below);
      numbered = Numbered-append (suc evicted) es _ numbers (omega (arith, id, total));
      counted = omega (arith, more, v.counted, below);
      four = omega (arith, same, v.four);
      in_range = omega (arith, below);
      next = ap next_after (omega (arith, id, below));
    }

pop_front-Numbered :
    (n : ℕ) (es : List RequestHistoryEntry)
    → 0 < length es
    → Numbered n es
    → Numbered (suc n) (pop_front es) × (suc (length (pop_front es)) ≡ length es)
pop_front-Numbered n [] h k = absurd (omega arith)
pop_front-Numbered n (e ∷ es) h k = (k.1, refl)

-- Recording a request keeps the history valid, whether it evicts the oldest entry, finds room, or
-- has run out of numbers: at most `capacity` entries, the latest ones, numbered one after the other
-- without a gap, and the totals of all outcomes and of the evictions agree with them.
pub record_request-IsValid :
    (s : RequestHistoryState) (p : RequestHistoryPending) (status elapsed : ℕ)
    → IsValid s
    → IsValid (record_request s p status elapsed)
unfolding record_request evict
record_request-IsValid s p status elapsed v = elim (Bool-cases (s.next_id == 0)) [
  | inl exhausted ↦ rw exhausted (record {
    positive = v.positive;
    limited = v.limited;
    kept = v.kept;
    evicted = v.evicted;
    numbered = v.numbered;
    counted = v.counted;
    four = v.four;
    in_range = v.in_range;
    next = v.next;
  })
  | inr live ↦
      let (id, below) = next_id-eq s v live in
      elim (Bool-cases (length s.entries == s.capacity)) [
        | inl full ↦
            let is_full : length s.entries ≡ s.capacity = ground arith in
            let (numbers, shorter) =
              pop_front-Numbered (suc s.evicted_total) s.entries
                (omega (arith, v.positive, is_full)) v.numbered in
            let one_more : saturating_add_one s.evicted_total ≡ suc s.evicted_total =
              omega (arith, v.evicted, below) in
            rw (live, full, one_more)
              (recorded-IsValid s p status elapsed (suc s.evicted_total) (pop_front s.entries) v
                live (omega (arith, shorter, v.evicted)) (omega (arith, shorter, is_full, v.kept))
                numbers)
        | inr roomy ↦
            let not_full : length s.entries ≢ s.capacity = ground arith in
            rw (live, roomy)
              (recorded-IsValid s p status elapsed s.evicted_total s.entries v live v.evicted
                (omega (arith, not_full, v.kept)) v.numbered)
      ]
]
