-- ===== src/Service/Reorder.antt =====
-- service/reorder.go: the cap of metatx in flight, the nonce that is accepted, and the path that
-- sends.
pub mod Cap
pub mod Room
pub mod Surplus
use gas_management.Base.{
  ℕ, ◌+◌, ◌-◌, ◌*◌, Bool, true, false, Option, none, some, List, [], ◌∷◌, Key, ltb, leb, ◌==◌,
  if◌then◌else◌,
}
use gas_management.Base.Int.{u64}
use gas_management.Config.{
  Config, millisecond, default_reorder_max_inflight_per_user, default_reorder_window_ms,
}
use gas_management.Service.Rejection.{
  Rejection, Cause, Result, ok, err, hub_unresolved, hub_nonce_unreadable, invalid_nonce,
  inflight_limit, bad_nonce, too_many_inflight, nonce_details, inflight_details,
  reject_with_details,
}
use gas_management.Service.Tracker.{Tracker, Chain, HeldMetaTx}
use gas_management.Service.Tracker.Registry.{
  highest_held_locked, evict_held_locked, notify_turn_locked,
}
use gas_management.Service.Tracker.Chains.{
  cached_nonce, inflight_locked, reserve_locked, increment_transaction_count, sender_key,
}

unfoldable pub max_inflight_per_user : Option Config → ℕ
max_inflight_per_user none = default_reorder_max_inflight_per_user
max_inflight_per_user (some config) =
    if ltb 0 config.reorder.max_inflight_per_user
    then config.reorder.max_inflight_per_user
    else default_reorder_max_inflight_per_user

unfoldable pub reorder_window : Option Config → ℕ
reorder_window none = default_reorder_window_ms * millisecond
reorder_window (some config) =
    if ltb 0 config.reorder.window_ms
    then config.reorder.window_ms * millisecond
    else default_reorder_window_ms * millisecond

unfoldable pub reorder_enabled : Option Config → Bool
reorder_enabled none = false
reorder_enabled (some config) = config.reorder.enabled

-- What the node answers when the hub's nonce is read: the address of the hub is not resolved, the
-- key, the connection or the call fails, there is no value, or an uint256.
pub data HubRead : Type 0 where
  unresolved no_value : HubRead
  failed : Cause → HubRead
  nonce_is : ℕ → HubRead

abbrev pub on_chain : HubRead → Result ℕ
on_chain unresolved = err hub_unresolved
on_chain no_value = err hub_nonce_unreadable
on_chain (failed cause) = err cause
on_chain (nonce_is n) = ok (u64 n)

abbrev pub or_on_chain : Option ℕ → HubRead → Result ℕ
or_on_chain none hub = on_chain hub
or_on_chain (some next) hub = ok next

-- The nonce that is accepted from this sender: the tracker's, or else the hub's.
unfoldable pub expected_nonce : Tracker → Key → HubRead → ℕ → Result ℕ × Tracker
expected_nonce t from hub now =
    let (cached, t') = cached_nonce t from now in (or_on_chain cached hub, t')

unfoldable pub bad_nonce_rejection : ℕ → ℕ → ℕ → Rejection
bad_nonce_rejection expected got pending =
    reject_with_details (invalid_nonce expected got) bad_nonce (nonce_details expected got pending)

unfoldable pub too_many_inflight_rejection : ℕ → ℕ → Rejection
too_many_inflight_rejection inflight most =
    reject_with_details (inflight_limit inflight most) too_many_inflight
      (inflight_details inflight most)

unfoldable pub evict_above : Option ℕ → Tracker → Key → ℕ → ℕ → (ℕ × Bool) × Tracker
evict_above none t key nonce inflight = ((inflight, false), t)
evict_above (some highest) t key nonce inflight =
    if leb (t.entries highest).nonce nonce
    then ((inflight, false), t)
    else ((inflight, true), evict_held_locked t key highest inflight)

-- How many were in flight, and whether the arriving metatx is admitted.
unfoldable pub make_room_for : Tracker → Key → ℕ → ℕ → (ℕ × Bool) × Tracker
unfolding evict_above
make_room_for t key nonce now =
    let (inflight, t') = inflight_locked t key now in
    if ltb inflight (max_inflight_per_user t'.config)
    then ((inflight, true), t')
    else evict_above (highest_held_locked t' key) t' key nonce inflight

abbrev pub is_entry : ℕ → Option ℕ → Bool
is_entry id none = false
is_entry id (some highest) = highest == id

-- How many are in flight, and whether this held metatx is the one too many.
unfoldable pub surplus_held : Tracker → Key → ℕ → ℕ → (ℕ × Bool) × Tracker
surplus_held t key id now =
    let (inflight, t') = inflight_locked t key now in
    if leb inflight (max_inflight_per_user t'.config)
    then ((inflight, false), t')
    else ((inflight, is_entry id (highest_held_locked t' key)), t')
