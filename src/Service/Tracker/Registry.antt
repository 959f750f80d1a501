-- ===== src/Service/Tracker/Registry.antt =====
-- service/tracker.go, the second half: the metatx that wait for their turn, in order of arrival.
pub mod Highest
pub mod Waiters
pub mod Wake
pub mod Evict
pub mod Safety
pub mod Invariant
use gas_management.Base.{
  ℕ, ◌+◌, Bool, true, false, ◌||◌, Option, none, some, List, [], ◌∷◌, ◌++◌, Key, Map, insert,
  delete, length, ◌==◌, leb, if◌then◌else◌,
}
unfoldable pub use gas_management.Base.Ids.{contains, remove}
use gas_management.Service.Tracker.{Tracker, HeldMetaTx, new_entry}

-- `service.held[key]`: a missing key reads as the empty slice.
abbrev pub or_empty : Option (List ℕ) → List ℕ
or_empty none = []
or_empty (some ids) = ids

abbrev pub waiters : Map (List ℕ) → Key → List ℕ
waiters held key = or_empty (held key)

-- A write through the pointer of one held metatx.
abbrev pub set_entry : ℕ → HeldMetaTx → (ℕ → HeldMetaTx) → ℕ → HeldMetaTx
set_entry id e entries j = if j == id then e else entries j

abbrev pub set_closed : ℕ → (ℕ → Bool) → ℕ → Bool
set_closed c closed j = if j == c then true else closed j

unfoldable pub waiting_of : Tracker → Key → ℕ
waiting_of t key = length (waiters t.held key)

-- The new entry's identity comes first.
unfoldable pub hold : Tracker → Key → ℕ → ℕ × Tracker
hold t key nonce = (
  t.next_entry,
  record t {
    held = insert key (waiters t.held key ++ t.next_entry ∷ []) t.held;
    entries = set_entry t.next_entry (new_entry nonce) t.entries;
    next_entry = t.next_entry + 1;
  },
)

-- A key whose list is empty is deleted.
unfoldable pub drop_empty : Key → Map (List ℕ) → Map (List ℕ)
drop_empty key held = if length (waiters held key) == 0 then delete key held else held

unfoldable pub unhold_locked : Tracker → Key → ℕ → Tracker
unhold_locked t key id =
    let ids = waiters t.held key in
    let held : Map (List ℕ) =
      if contains id ids then insert key (remove id ids) t.held else t.held in
    record t { held = drop_empty key held }

-- `unhold` is `unholdLocked` under the lock.
unfoldable pub unhold : Tracker → Key → ℕ → Tracker
unfolding unhold_locked
unhold t key id = unhold_locked t key id

-- A new channel for the turn that begins; it comes first.
unfoldable pub wait_turn_locked : Tracker → ℕ → ℕ × Tracker
wait_turn_locked t id = (
  t.next_wake,
  record t {
    entries = set_entry id (record e { wake = some t.next_wake }) t.entries;
    next_wake = t.next_wake + 1;
  },
)
  where
    e : HeldMetaTx
    e = t.entries id

unfoldable pub stop_waiting_locked : Tracker → ℕ → Tracker
stop_waiting_locked t id =
    let e : HeldMetaTx = t.entries id in
    record t { entries = set_entry id (record e { wake = none }) t.entries }

-- `close(c)`: a second close panics.
unfoldable pub close_wake : Tracker → ℕ → Tracker
close_wake t c = record t { closed = set_closed c t.closed; panicked = t.panicked || t.closed c }

wake_through : Option ℕ → Tracker → ℕ → Tracker
unfolding close_wake stop_waiting_locked
wake_through none t id = t
wake_through (some c) t id = stop_waiting_locked (close_wake t c) id

unfoldable pub wake_locked : Tracker → ℕ → Tracker
unfolding wake_through
wake_locked t id = wake_through (t.entries id).wake t id

unfoldable pub wake_all : List ℕ → Tracker → Tracker
wake_all [] t = t
wake_all (id ∷ ids) t = wake_all ids (wake_locked t id)

unfoldable pub notify_turn_locked : Tracker → Key → Tracker
notify_turn_locked t key = wake_all (waiters t.held key) t

unfoldable pub evict_held_locked : Tracker → Key → ℕ → ℕ → Tracker
evict_held_locked t key id inflight =
    let e : HeldMetaTx = t.entries id in
    let marked : HeldMetaTx = record e { evicted = true; evicted_inflight = inflight } in
    wake_locked (unhold_locked (record t { entries = set_entry id marked t.entries }) key id) id

-- The loop of `highestHeldLocked`: a later entry of the same nonce replaces the earlier one.
abbrev pub higher : (ℕ → HeldMetaTx) → Option ℕ → ℕ → Option ℕ
higher entries none id = some id
higher entries (some best) id =
    if leb (entries best).nonce (entries id).nonce then some id else some best

unfoldable pub highest_from : (ℕ → HeldMetaTx) → Option ℕ → List ℕ → Option ℕ
highest_from entries best [] = best
highest_from entries best (id ∷ ids) = highest_from entries (higher entries best id) ids

unfoldable pub highest_held_locked : Tracker → Key → Option ℕ
unfolding highest_from
highest_held_locked t key = highest_from t.entries none (waiters t.held key)
