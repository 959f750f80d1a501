-- ===== src/Examples/State.antt =====
-- The tracker: held metatx, a reservation, its release and histories.
use gas_management.Base.{
  ℕ, ◌+◌, ◌≡◌, ◌≢◌, refl, sym, ◌∙◌, ◌⊎◌, true, some, none, [], arith, Key-discrete, insert,
}
use Prim.Native.Nat.{max}
use gas_management.Base.Int.{u64}
use gas_management.Base.Ids.{contains, Distinct}
use gas_management.Examples.{ann, idle, one_held, two_held, small_config}
use gas_management.Service.Tracker.{Tracker, Chain}
use gas_management.Service.Tracker.Registry.{
  waiters, hold, wait_turn_locked, highest_held_locked, evict_held_locked,
}
use gas_management.Service.Tracker.Registry.Highest.{
  IsLastHighest, highest_held_locked-IsLastHighest,
}
use gas_management.Service.Tracker.Registry.Safety.{WakeSafe}
use gas_management.Service.Tracker.Registry.Invariant.{IsRegistry}
use gas_management.Service.Tracker.Chains.{
  chain_locked, live_chain, reserve_locked, release_chain, bump_pending, pending_in,
}
use gas_management.Service.Tracker.Chains.Reserve.{reserve_locked-max, next_or_zero, id_or}
use gas_management.Service.Tracker.Chains.Identity.{IsChained}
use gas_management.Service.Tracker.History.{
  starts, goes, holds, sleeps, reserves, evicts, releases, Reachable-IsTracker,
}

highest_held_locked-IsLastHighest_example :
    ((waiters two_held.held ann ≡ []) × (highest_held_locked two_held ann ≡ none))
    ⊎ ((h : ℕ) × (highest_held_locked two_held ann ≡ some h)
        × IsLastHighest two_held.entries h (waiters two_held.held ann))
highest_held_locked-IsLastHighest_example = highest_held_locked-IsLastHighest two_held ann

Distinct-two : Distinct (waiters two_held.held ann)
unfolding contains hold insert Key-discrete
Distinct-two = (refl, (refl, tt))

-- The chain of a user whose nonce 5 was sent.
abbrev sent : Tracker
sent = (reserve_locked idle ann 5 true 100).1

abbrev sent_chain : Chain
sent_chain = (reserve_locked idle ann 5 true 100).0

reserve_locked-max_example :
    ((reserve_locked sent ann 3 true 200).1.senders ann
      ≡ some (reserve_locked sent ann 3 true 200).0)
    × ((reserve_locked sent ann 3 true 200).0.next
        ≡ max (u64 (3 + 1)) (next_or_zero (chain_locked sent ann 200).0))
    × ((reserve_locked sent ann 3 true 200).0.pending
        ≡ bump_pending true (pending_in (chain_locked sent ann 200).0))
    × ((reserve_locked sent ann 3 true 200).0.id
        ≡ id_or (chain_locked sent ann 200).0 (chain_locked sent ann 200).1.next_chain)
    × ((reserve_locked sent ann 3 true 200).0.expiry ≡ none)
    × ((reserve_locked sent ann 3 true 200).0.updated_at ≡ 200)
reserve_locked-max_example = reserve_locked-max sent ann 3 true 200

sent_is : sent.senders ann ≡ some sent_chain
sent_is = (reserve_locked-max idle ann 5 true 100).0

sent_id : sent_chain.id ≡ 0
unfolding reserve_locked chain_locked live_chain
sent_id = refl

other_chain : (chain : Chain) → sent.senders ann ≡ some chain → chain.id ≢ 7
other_chain chain e h =
    let same : some sent_chain ≡ some chain = sym sent_is ∙ e in
    let id = sent_id in absurd (ground arith)

-- A metatx is held, sleeps, and is evicted; another one is sent and settled.
Reachable-IsTracker_example :
    let a = (wait_turn_locked one_held 0).1 in
    let b = evict_held_locked a ann 0 1 in
    let c = (reserve_locked b ann 5 true 100).1 in
    let d = release_chain c ann (some 0) 300 in WakeSafe d × IsRegistry d × IsChained d
Reachable-IsTracker_example = Reachable-IsTracker (some small_config) _ (
    goes
      (goes (goes (goes (goes starts (holds idle ann 5)) (sleeps one_held 0)) (evicts _ ann 0 1))
        (reserves _ ann 5 100 true))
      (releases _ ann (some 0) 300))
