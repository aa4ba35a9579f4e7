-- ===== src/RequestHistory/Tests.antt =====
-- A short history, and its theorems at concrete requests.
use tunnel_proxy.Common.{
  ℕ, ◌≡◌, refl, Bool, true, false, List, [], ◌∷◌, take, replicate, map, arith,
}
use tunnel_proxy.Common.Results.{ok, err}
use tunnel_proxy.RequestHistory.Model.{
  http1, forwarded, timeout, invalid_capacity, RequestHistoryState, RequestHistoryPending, new,
  count_outcome, next_after, evict, entry_of, record_request, set_outcome, finish, snapshot_entries,
  bounded_method, boundary_below, bounded_path, begin_request, snapshot, outcome_count,
}
use tunnel_proxy.RequestHistory.Invariant.{IsValid, new-IsValid, record_request-IsValid}
use tunnel_proxy.RequestHistory.Paths.{IsBoundaryTest, IsCut, bounded_path-IsCut}
use tunnel_proxy.RequestHistory.Snapshots.{snapshot_entries-record_request}

program : Unit {0}
unfolding new count_outcome next_after evict entry_of record_request set_outcome finish
    snapshot_entries bounded_method boundary_below bounded_path begin_request
program = tt

-- Every index of an ASCII string is a boundary.
abbrev ascii : List ℕ → ℕ → Bool
ascii path i = true

ascii-IsBoundaryTest : IsBoundaryTest ascii
ascii-IsBoundaryTest = record { at_start = λ s. refl; at_end = λ s. refl }

abbrev request : RequestHistoryPending
request = record {
  hostname = 100 ∷ [];
  tunnel_id = 116 ∷ [];
  method = 71 ∷ 69 ∷ 84 ∷ [];
  path = 47 ∷ [];
  path_truncated = false;
  protocol = http1;
  started = 0;
  outcome = forwarded;
}

abbrev empty : RequestHistoryState
empty = record {
  capacity = 2;
  next_id = 1;
  recorded_total = 0;
  evicted_total = 0;
  sequence_exhaustions = 0;
  outcomes = 0 ∷ 0 ∷ 0 ∷ 0 ∷ [];
  entries = [];
}

begins : begin_request ascii (100 ∷ []) (116 ∷ []) (71 ∷ 69 ∷ 84 ∷ []) (47 ∷ []) http1 0 ≡ request
unfolding program
begins = refl

new_two : new 2 ≡ ok empty
unfolding program
new_two = refl

new_none : new 0 ≡ err invalid_capacity
unfolding program
new_none = refl

-- Three requests in a history of two.
abbrev three : RequestHistoryState
three =
    finish (set_outcome request timeout) 504 9 (finish request 200 7 (finish request 200 5 empty))

three_counts :
    (map (λ e. e.request_id) three.entries ≡ 2 ∷ 3 ∷ [])
    × (three.evicted_total ≡ 1)
    × (three.outcomes ≡ 2 ∷ 0 ∷ 1 ∷ 0 ∷ [])
unfolding program
three_counts = (refl, refl, refl)

empty-IsValid : IsValid empty
empty-IsValid = new-IsValid 2 empty new_two

record_request-IsValid_example : IsValid (record_request empty request 200 5)
record_request-IsValid_example = record_request-IsValid empty request 200 5 empty-IsValid

snapshot_entries-record_request_example :
    snapshot_entries (record_request empty request 200 5)
    ≡ take 2 (entry_of 1 request 200 5 ∷ snapshot_entries empty)
snapshot_entries-record_request_example =
    snapshot_entries-record_request empty request 200 5 empty-IsValid (omega arith)

bounded_path-IsCut_example :
    IsCut ascii (replicate 3_000 47) (bounded_path ascii (replicate 3_000 47))
bounded_path-IsCut_example = bounded_path-IsCut ascii (replicate 3_000 47) ascii-IsBoundaryTest

three_timeouts : outcome_count (snapshot three) timeout ≡ 1
unfolding program snapshot outcome_count
three_timeouts = refl
