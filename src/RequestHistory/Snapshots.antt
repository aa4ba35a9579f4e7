-- ===== src/RequestHistory/Snapshots.antt =====
-- What a snapshot shows after a request has been recorded.
use mathlib.Core.List.{reverse, reverse-cons, reverse-append}
use tunnel_proxy.Common.{
  ℕ, suc, ◌-◌, ◌≡◌, ◌≢◌, refl, ap, sym, ◌∙◌, false, Bool-cases, inl, inr, List, [], ◌∷◌, ◌==◌,
  length, length-append, take, take-append_left, take_of_length-le, arith,
}
use tunnel_proxy.RequestHistory.Model.{
  RequestHistoryEntry, RequestHistoryState, RequestHistoryPending, pop_front, evict, entry_of,
  record_request, snapshot_entries,
}
use tunnel_proxy.RequestHistory.Invariant.{IsValid}

length-reverse : (es : List RequestHistoryEntry) → length (reverse es) ≡ length es
length-reverse [] = refl
length-reverse (e ∷ es) =
    ap length (reverse-cons e es)
    ∙ omega (arith, length-append (reverse es) (e ∷ []), length-reverse es)

reverse-pop_front :
    (n : ℕ) (es : List RequestHistoryEntry)
    → length es ≡ suc n
    → reverse (pop_front es) ≡ take n (reverse es)
reverse-pop_front n [] h = absurd (omega arith)
reverse-pop_front n (e ∷ es) h =
    sym (take-append_left n (reverse es) (e ∷ []) (omega (arith, length-reverse es)))
    ∙ ap (take n) (sym (reverse-cons e es))

take-cons :
    (n m : ℕ) (e : RequestHistoryEntry) (es : List RequestHistoryEntry)
    → m ≡ suc n
    → take m (e ∷ es) ≡ e ∷ take n es
take-cons n m e es h = rw h refl

-- As long as numbers are left, a snapshot taken after a request shows that request first, then what
-- the snapshot before showed, cut to the capacity.
pub snapshot_entries-record_request :
    (s : RequestHistoryState) (p : RequestHistoryPending) (status elapsed : ℕ)
    → IsValid s
    → s.next_id ≢ 0
    → snapshot_entries (record_request s p status elapsed)
      ≡ take s.capacity (entry_of s.next_id p status elapsed ∷ snapshot_entries s)
unfolding snapshot_entries record_request evict
snapshot_entries-record_request s p status elapsed v live =
    let new_one = entry_of s.next_id p status elapsed in
    let going : (s.next_id == 0) ≡ false = ground arith in
    let size = length-reverse s.entries in
    elim (Bool-cases (length s.entries == s.capacity)) [
      | inl full ↦
          let is_full : length s.entries ≡ s.capacity = ground arith in
          let n = s.capacity - 1 in
          rw (going, full)
            (reverse-append (pop_front s.entries) (new_one ∷ [])
              ∙ ap (λ t. new_one ∷ t)
                  (reverse-pop_front n s.entries (omega (arith, is_full, v.positive)))
              ∙ sym
                  (take-cons n s.capacity new_one (reverse s.entries) (omega (arith, v.positive))))
      | inr roomy ↦
          let not_full : length s.entries ≢ s.capacity = ground arith in
          rw (going, roomy)
            (reverse-append s.entries (new_one ∷ [])
              ∙ sym (
                  take_of_length-le s.capacity (new_one ∷ reverse s.entries)
                    (omega (arith, size, not_full, v.kept))))
    ]
