-- ===== src/Service/Tracker/History.antt =====
-- Histories of the tracker: every operation under `sendersLock` is one step.
use gas_management.Base.{ℕ, refl, Bool, Option, Key, Map}
use gas_management.Config.{Config}
use gas_management.Service.Tracker.{Tracker, Chain, empty_tracker}
use gas_management.Service.Tracker.Registry.{
  hold, unhold_locked, wait_turn_locked, stop_waiting_locked, notify_turn_locked, evict_held_locked,
}
use gas_management.Service.Tracker.Registry.Wake.{notify_turn-Woken, wake_locked-Woken}
use gas_management.Service.Tracker.Registry.Safety.{
  WakeSafe, empty-WakeSafe, hold-WakeSafe, unhold-WakeSafe, wait_turn-WakeSafe,
  stop_waiting-WakeSafe, notify_turn-WakeSafe, evict-WakeSafe,
}
use gas_management.Service.Tracker.Registry.Invariant.{
  IsRegistry, empty-IsRegistry, hold-IsRegistry, unhold-IsRegistry, wait_turn-IsRegistry,
  stop_waiting-IsRegistry, notify_turn-IsRegistry, evict-IsRegistry,
}
use gas_management.Service.Tracker.Chains.{
  chain_locked, reserve_locked, release_chain, expire_chain, forget_chain,
}
use gas_management.Service.Tracker.Chains.Identity.{
  IsChained, empty-IsChained, IsChained-same, chain_locked-IsChained, reserve-IsChained,
  forget-IsChained,
}
use gas_management.Service.Tracker.Chains.Idle.{release-IsChained, expire-IsChained}
use gas_management.Service.Tracker.Chains.Steady.{
  chain_locked-kept, reserve-kept, forget-kept, release-kept, expire-kept,
}

-- Any goroutine may run any operation at any time, with any arguments.
pub data Step : Tracker → Tracker → Type 0 where
  holds : (t : Tracker) (key : Key) (nonce : ℕ) → Step t (hold t key nonce).1
  unholds : (t : Tracker) (key : Key) (id : ℕ) → Step t (unhold_locked t key id)
  sleeps : (t : Tracker) (id : ℕ) → Step t (wait_turn_locked t id).1
  rouses : (t : Tracker) (id : ℕ) → Step t (stop_waiting_locked t id)
  notifies : (t : Tracker) (key : Key) → Step t (notify_turn_locked t key)
  evicts : (t : Tracker) (key : Key) (id n : ℕ) → Step t (evict_held_locked t key id n)
  reads : (t : Tracker) (key : Key) (now : ℕ) → Step t (chain_locked t key now).1
  reserves :
      (t : Tracker) (key : Key) (nonce now : ℕ) (in_flight : Bool)
      → Step t (reserve_locked t key nonce in_flight now).1
  releases :
      (t : Tracker) (key : Key) (id : Option ℕ) (now : ℕ) → Step t (release_chain t key id now)
  expires : (t : Tracker) (key : Key) (id : ℕ) → Step t (expire_chain t key id)
  forgets : (t : Tracker) (key : Key) → Step t (forget_chain t key)

pub data Reachable (config : Option Config) : Tracker → Type 0 where
  starts : Reachable config (empty_tracker config)
  goes : {t u : Tracker} → Reachable config t → Step t u → Reachable config u

abbrev Waits : Tracker → Type 0
Waits t = WakeSafe t × IsRegistry t

write-Waits :
    (t : Tracker) (s : Map Chain) (n : ℕ)
    → Waits t
    → Waits (record t { senders = s; next_chain = n })
write-Waits t s n (w, r) = (
  record { open_wake = w.open_wake; made = w.made; own = w.own; unmade = w.unmade; calm = w.calm },
  record { distinct = r.distinct; made = r.made; own = r.own },
)

wake-Waits : (t : Tracker) (key : Key) → Waits t → Waits (notify_turn_locked t key)
wake-Waits t key (w, r) = (notify_turn-WakeSafe t key w, notify_turn-IsRegistry t key r)

Step-Waits : (t u : Tracker) → Step t u → Waits t → Waits u
Step-Waits t _ (holds _ key n) (w, r) = (hold-WakeSafe t key n w, hold-IsRegistry t key n r)
Step-Waits t _ (unholds _ key id) (w, r) =
    (unhold-WakeSafe t key id w, unhold-IsRegistry t key id r)
Step-Waits t _ (sleeps _ id) (w, r) = (wait_turn-WakeSafe t id w, wait_turn-IsRegistry t id r)
Step-Waits t _ (rouses _ id) (w, r) = (stop_waiting-WakeSafe t id w, stop_waiting-IsRegistry t id r)
Step-Waits t _ (notifies _ key) p = wake-Waits t key p
Step-Waits t _ (evicts _ key id n) (w, r) =
    (evict-WakeSafe t key id n w, evict-IsRegistry t key id n r)
Step-Waits t _ (reads _ key now) p = chain_locked-kept Waits write-Waits wake-Waits t key now p
Step-Waits t _ (reserves _ key nonce now in_flight) p =
    reserve-kept Waits write-Waits wake-Waits t key nonce now in_flight p
Step-Waits t _ (releases _ key id now) p = release-kept Waits write-Waits wake-Waits t key id now p
Step-Waits t _ (expires _ key id) p = expire-kept Waits write-Waits wake-Waits t key id p
Step-Waits t _ (forgets _ key) p = forget-kept Waits write-Waits wake-Waits t key p

Step-IsChained : (t u : Tracker) → Step t u → IsChained t → IsChained u
unfolding hold unhold_locked wait_turn_locked stop_waiting_locked evict_held_locked
Step-IsChained t _ (holds _ key n) w = IsChained-same t _ refl refl w
Step-IsChained t _ (unholds _ key id) w = IsChained-same t _ refl refl w
Step-IsChained t _ (sleeps _ id) w = IsChained-same t _ refl refl w
Step-IsChained t _ (rouses _ id) w = IsChained-same t _ refl refl w
Step-IsChained t _ (notifies _ key) w =
    let n = notify_turn-Woken t key in IsChained-same t _ n.senders n.next_chain w
Step-IsChained t _ (evicts _ key id n) w =
    let w' = wake_locked-Woken _ id in IsChained-same t _ w'.senders w'.next_chain w
Step-IsChained t _ (reads _ key now) w = chain_locked-IsChained t key now w
Step-IsChained t _ (reserves _ key nonce now in_flight) w =
    reserve-IsChained t key nonce now in_flight w
Step-IsChained t _ (releases _ key id now) w = release-IsChained t key id now w
Step-IsChained t _ (expires _ key id) w = expire-IsChained t key id w
Step-IsChained t _ (forgets _ key) w = forget-IsChained t key w

-- Whatever the operations on a tracker that has just started and their order: no wake channel is
-- closed twice, no two entries sleep on one channel and none on a closed one; every held metatx is
-- registered once and under one user; the chains that are stored have identities of their own, and a
-- deferred deletion only where nothing is in flight.
pub Reachable-IsTracker :
    (config : Option Config) (t : Tracker)
    → Reachable config t
    → WakeSafe t × IsRegistry t × IsChained t
Reachable-IsTracker config _ starts =
    (empty-WakeSafe config, empty-IsRegistry config, empty-IsChained config)
Reachable-IsTracker config u (goes {t} r step) =
    let (w, i, c) = Reachable-IsTracker config t r in
    let (w', i') = Step-Waits t u step (w, i) in (w', i', Step-IsChained t u step c)
