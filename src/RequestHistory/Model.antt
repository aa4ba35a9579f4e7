-- ===== src/RequestHistory/Model.antt =====
-- `RequestHistory` and `RequestHistoryPending`. Strings are their UTF-8 bytes; `is_char_boundary` of
-- the standard library is a parameter. Instants are nanoseconds.
use tunnel_proxy.Common.{
  ℕ, zero, suc, ◌+◌, ◌-◌, ◌*◌, ◌/◌, ◌^◌, min, Bool, true, false, not, ◌&&◌, List, [], ◌∷◌, ◌++◌,
  leb, ◌==◌, if◌then◌else◌, length, take,
}
use tunnel_proxy.Common.Results.{Result, ok, err}
use mathlib.Core.List.{reverse}

abbrev pub max_request_history_entries : ℕ
max_request_history_entries = 128

abbrev pub max_request_history_path_bytes : ℕ
max_request_history_path_bytes = 2 * 1024

abbrev pub max_request_history_method_bytes : ℕ
max_request_history_method_bytes = 32

abbrev pub u64_max : ℕ
u64_max = 2 ^ 64 - 1

abbrev pub saturating_add_one : ℕ → ℕ
saturating_add_one n = min (n + 1) u64_max

pub data RequestHistoryProtocol : Type 0 where
  http1 http2 : RequestHistoryProtocol

pub data RequestHistoryOutcome : Type 0 where
  forwarded local_unavailable timeout rejected : RequestHistoryOutcome

abbrev pub index : RequestHistoryOutcome → ℕ
index forwarded = 0
index local_unavailable = 1
index timeout = 2
index rejected = 3

pub record RequestHistoryEntry : Type 0 where
  pub request_id : ℕ
  pub hostname : List ℕ
  pub tunnel_id : List ℕ
  pub method : List ℕ
  pub path : List ℕ
  pub path_truncated : Bool
  pub protocol : RequestHistoryProtocol
  pub response_status : ℕ
  pub response_header_ms : ℕ
  pub outcome : RequestHistoryOutcome

pub data ConfigError : Type 0 where
  invalid_capacity : ConfigError

pub record RequestHistoryState : Type 0 where
  pub capacity : ℕ
  pub next_id : ℕ
  pub recorded_total : ℕ
  pub evicted_total : ℕ
  pub sequence_exhaustions : ℕ
  pub outcomes : List ℕ
  pub entries : List RequestHistoryEntry

-- The request under way; the history that it keeps is the one of the run.
pub record RequestHistoryPending : Type 0 where
  pub hostname : List ℕ
  pub tunnel_id : List ℕ
  pub method : List ℕ
  pub path : List ℕ
  pub path_truncated : Bool
  pub protocol : RequestHistoryProtocol
  pub started : ℕ
  pub outcome : RequestHistoryOutcome

unfoldable pub new : ℕ → Result ConfigError RequestHistoryState
new capacity =
    if not (leb 1 capacity && leb capacity max_request_history_entries)
    then err invalid_capacity
    else ok (record {
      capacity = capacity;
      next_id = 1;
      recorded_total = 0;
      evicted_total = 0;
      sequence_exhaustions = 0;
      outcomes = 0 ∷ 0 ∷ 0 ∷ 0 ∷ [];
      entries = [];
    })

-- `VecDeque::pop_front` with its result dropped.
abbrev pub pop_front : {A : Type 0} → List A → List A
pop_front [] = []
pop_front (x ∷ xs) = xs

-- The counter of one outcome goes up.
unfoldable pub count_outcome : ℕ → List ℕ → List ℕ
count_outcome i [] = []
count_outcome zero (n ∷ ns) = saturating_add_one n ∷ ns
count_outcome (suc i) (n ∷ ns) = n ∷ count_outcome i ns

-- `request_id.checked_add(1).unwrap_or(0)`
unfoldable pub next_after : ℕ → ℕ
next_after id = if id == u64_max then 0 else id + 1

unfoldable pub evict : RequestHistoryState → RequestHistoryState
evict s =
    if length s.entries == s.capacity
    then record s {
      entries = pop_front s.entries;
      evicted_total = saturating_add_one s.evicted_total;
    }
    else s

unfoldable pub entry_of : ℕ → RequestHistoryPending → ℕ → ℕ → RequestHistoryEntry
entry_of request_id pending response_status elapsed = record {
  request_id = request_id;
  hostname = pending.hostname;
  tunnel_id = pending.tunnel_id;
  method = pending.method;
  path = pending.path;
  path_truncated = pending.path_truncated;
  protocol = pending.protocol;
  response_status = response_status;
  response_header_ms = min (elapsed / 1_000_000) u64_max;
  outcome = pending.outcome;
}

-- `record`
unfoldable pub record_request :
    RequestHistoryState → RequestHistoryPending → ℕ → ℕ → RequestHistoryState
record_request s pending response_status elapsed =
    if s.next_id == 0
    then record s { sequence_exhaustions = saturating_add_one s.sequence_exhaustions }
    else (let s' = evict s in
        record s' {
          next_id = next_after s.next_id;
          recorded_total = saturating_add_one s.recorded_total;
          outcomes = count_outcome (index pending.outcome) s.outcomes;
          entries = s'.entries ++ entry_of s.next_id pending response_status elapsed ∷ [];
        })

unfoldable pub set_outcome : RequestHistoryPending → RequestHistoryOutcome → RequestHistoryPending
set_outcome pending outcome = record pending { outcome = outcome }

unfoldable pub finish : RequestHistoryPending → ℕ → ℕ → RequestHistoryState → RequestHistoryState
finish pending response_status now s =
    record_request s pending response_status (now - pending.started)

-- The entries of a snapshot: the newest first.
unfoldable pub snapshot_entries : RequestHistoryState → List RequestHistoryEntry
snapshot_entries s = reverse s.entries

-- "OTHER"
abbrev other : List ℕ
other = 79 ∷ 84 ∷ 72 ∷ 69 ∷ 82 ∷ []

unfoldable pub bounded_method : List ℕ → List ℕ
bounded_method method =
    if leb (length method) max_request_history_method_bytes then method else other

module _ (is_char_boundary : List ℕ → ℕ → Bool) where
  -- The loop that moves `end` down; index 0 is a boundary of every string.
  unfoldable pub boundary_below : List ℕ → ℕ → ℕ
  boundary_below path zero = 0
  boundary_below path (suc n) =
      let lower = boundary_below path n in
      if not (is_char_boundary path (suc n)) then lower else suc n

  unfoldable pub bounded_path : List ℕ → List ℕ × Bool
  bounded_path path =
      if leb (length path) max_request_history_path_bytes
      then (path, false)
      else (take (boundary_below path max_request_history_path_bytes) path, true)

  unfoldable pub begin_request :
      List ℕ → List ℕ → List ℕ → List ℕ → RequestHistoryProtocol → ℕ → RequestHistoryPending
  begin_request hostname tunnel_id method path protocol started = record {
    hostname = hostname;
    tunnel_id = tunnel_id;
    method = bounded_method method;
    path = (bounded_path path).0;
    path_truncated = (bounded_path path).1;
    protocol = protocol;
    started = started;
    outcome = forwarded;
  }

pub record RequestHistorySnapshot : Type 0 where
  pub capacity : ℕ
  pub recorded_total : ℕ
  pub evicted_total : ℕ
  pub sequence_exhaustions : ℕ
  pub outcomes : List ℕ
  pub entries : List RequestHistoryEntry

unfoldable pub snapshot : RequestHistoryState → RequestHistorySnapshot
snapshot s = record {
  capacity = s.capacity;
  recorded_total = s.recorded_total;
  evicted_total = s.evicted_total;
  sequence_exhaustions = s.sequence_exhaustions;
  outcomes = s.outcomes;
  entries = snapshot_entries s;
}

-- The array has 4 entries and every index is smaller.
abbrev pub entry_at : List ℕ → ℕ → ℕ
entry_at [] i = 0
entry_at (n ∷ ns) zero = n
entry_at (n ∷ ns) (suc i) = entry_at ns i

unfoldable pub outcome_count : RequestHistorySnapshot → RequestHistoryOutcome → ℕ
outcome_count s outcome = entry_at s.outcomes (index outcome)
