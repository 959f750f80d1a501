-- ===== src/Service/Tracker/Chains.antt =====
-- service/tracker.go, the first half, and the nonce cache of service/relaySignerService.go: the
-- chain of nonces of a user.
pub mod Reads
pub mod Reserve
pub mod Release
pub mod Identity
pub mod Idle
pub mod Steady
use gas_management.Base.{
  ℕ, ◌+◌, ◌-◌, ◌*◌, Bool, true, false, Option, none, some, Key, insert, delete, map, ltb, leb, ◌==◌,
  ◌&&◌, if◌then◌else◌,
}
use gas_management.Base.Int.{ℤ, pos, negsuc, u64}
use gas_management.Config.{Config, millisecond, second}
use gas_management.Service.Tracker.{Tracker, Chain}
use gas_management.Service.Tracker.Registry.{notify_turn_locked, waiting_of}

-- strings.ToLower on the bytes of an ASCII text.
unfoldable pub to_lower : ℕ → ℕ
to_lower c = if leb b'A' c && leb c b'Z' then c + 32 else c

unfoldable pub sender_key : Key → Key
sender_key from = map to_lower from

unfoldable pub ttl_of : ℤ → ℕ
ttl_of (pos n) = if ltb 0 n then n * second else 300 * second
ttl_of (negsuc n) = 300 * second

unfoldable pub nonce_cache_ttl : Option Config → ℕ
unfolding ttl_of
nonce_cache_ttl none = 300 * second
nonce_cache_ttl (some config) = ttl_of config.nonce_cache_ttl

unfoldable pub grace_window : Option Config → ℕ
grace_window none = 0
grace_window (some config) =
    if ltb 0 config.reorder.window_ms then config.reorder.window_ms * millisecond else 0

-- The timer of a chain is stopped.
abbrev pub stop_expiry : Chain → Chain
stop_expiry chain = record chain { expiry = none }

-- The dropped entry is out of the map, so its timer is out of reach.
unfoldable pub drop_locked : Tracker → Key → Tracker
drop_locked t key = record t { senders = delete key t.senders }

unfoldable pub live_chain : Option Chain → Tracker → Key → ℕ → Option Chain × Tracker
unfolding drop_locked
live_chain none t key now = (none, t)
live_chain (some chain) t key now =
    if ltb (nonce_cache_ttl t.config) (now - chain.updated_at)
    then (none, drop_locked t key)
    else (some chain, t)

-- The chain in force, after an expired one is dropped.
unfoldable pub chain_locked : Tracker → Key → ℕ → Option Chain × Tracker
unfolding live_chain
chain_locked t key now = live_chain (t.senders key) t key now

abbrev pub bump_pending : Bool → ℕ → ℕ
bump_pending true pending = pending + 1
bump_pending false pending = pending

-- The entry that the reservation is made on: the chain in force, or a new one.
abbrev pub entry_for : Option Chain → ℕ → ℕ → Chain
entry_for none fresh next = record {
  id = fresh;
  next = next;
  pending = 0;
  updated_at = 0;
  expiry = none;
}
entry_for (some chain) fresh next = chain

abbrev pub fresh_after : Option Chain → ℕ → ℕ
fresh_after none n = n + 1
fresh_after (some _) n = n

abbrev pub reserved : Chain → ℕ → Bool → ℕ → Chain
reserved entry next in_flight now = record entry {
  next = if ltb next entry.next then entry.next else next;
  pending = bump_pending in_flight entry.pending;
  updated_at = now;
  expiry = none;
}

-- The chain that the nonce was reserved on comes first.
unfoldable pub reserve_locked : Tracker → Key → ℕ → Bool → ℕ → Chain × Tracker
reserve_locked t key nonce in_flight now =
    let (found, t') = chain_locked t key now in
    let chain =
      reserved (entry_for found t'.next_chain (u64 (nonce + 1))) (u64 (nonce + 1)) in_flight now in
    (
      chain,
      record t' {
        senders = insert key chain t'.senders;
        next_chain = fresh_after found t'.next_chain;
      },
    )

-- What follows the wake-up in `releaseChain`: the grace period, or the deletion.
schedule_expiry : Option ℕ → Tracker → Key → Chain → ℕ → Tracker
unfolding drop_locked
schedule_expiry (some _) t key chain now = t
schedule_expiry none t key chain now =
    if ltb 0 (grace_window t.config)
    then record t {
      senders = insert key (record chain { expiry = some (now + grace_window t.config) }) t.senders;
    }
    else drop_locked t key

-- The decrement of the chain in force, the wake-up and the grace period.
release_current : Tracker → Key → Chain → ℕ → Tracker
unfolding schedule_expiry
release_current t key chain now =
    let chain' : Chain = record chain { pending = chain.pending - 1 } in
    let t' = notify_turn_locked (record t { senders = insert key chain' t.senders }) key in
    if ltb 0 chain'.pending then t' else schedule_expiry chain'.expiry t' key chain' now

release_if : Option Chain → Tracker → Key → ℕ → ℕ → Tracker
unfolding release_current
release_if none t key id now = t
release_if (some chain) t key id now = if chain.id == id then release_current t key chain now else t

-- `releaseChain`: the chain is given by its identity, `none` for nil.
unfoldable pub release_chain : Tracker → Key → Option ℕ → ℕ → Tracker
unfolding release_if
release_chain t key none now = t
release_chain t key (some id) now = release_if (t.senders key) t key id now

expire_if : Option Chain → Tracker → Key → ℕ → Tracker
unfolding drop_locked
expire_if none t key id = t
expire_if (some chain) t key id =
    if (chain.id == id) && (chain.pending == 0) then drop_locked t key else t

-- The function that `time.AfterFunc` runs for the chain `id`.
unfoldable pub expire_chain : Tracker → Key → ℕ → Tracker
unfolding expire_if
expire_chain t key id = expire_if (t.senders key) t key id

unfoldable pub forget_chain : Tracker → Key → Tracker
unfolding drop_locked
forget_chain t key = notify_turn_locked (drop_locked t key) key

-- `invalidateNonce`.
unfoldable pub invalidate_nonce : Tracker → Key → Tracker
invalidate_nonce t from = forget_chain t (sender_key from)

abbrev pub pending_in : Option Chain → ℕ
pending_in none = 0
pending_in (some chain) = chain.pending

unfoldable pub pending_of : Tracker → Key → ℕ → ℕ × Tracker
pending_of t from now =
    let (found, t') = chain_locked t (sender_key from) now in (pending_in found, t')

-- `inflightLocked`: the metatx that wait and those that were sent and are not resolved.
unfoldable pub inflight_locked : Tracker → Key → ℕ → ℕ × Tracker
inflight_locked t key now =
    let (found, t') = chain_locked t key now in (waiting_of t key + pending_in found, t')

unfoldable pub inflight_of : Tracker → Key → ℕ → ℕ × Tracker
inflight_of t from now = inflight_locked t (sender_key from) now

abbrev pub next_in : Option Chain → Option ℕ
next_in none = none
next_in (some chain) = some chain.next

unfoldable pub cached_nonce : Tracker → Key → ℕ → Option ℕ × Tracker
cached_nonce t from now =
    let (found, t') = chain_locked t (sender_key from) now in (next_in found, t')

-- `incrementTransactionCount`: the note of the path without reordering.
unfoldable pub increment_transaction_count : Tracker → Key → ℕ → ℕ → Tracker
increment_transaction_count t from nonce now =
    (reserve_locked t (sender_key from) nonce false now).1
