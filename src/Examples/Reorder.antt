-- ===== src/Examples/Reorder.antt =====
-- The cap of metatx in flight, on a user who holds two of them.
use gas_management.Base.{
  ◌≤◌, ◌<◌, ◌≡◌, refl, ◌↔◌, inl, inr, true, [], ◌∷◌, arith, Key-discrete, insert,
}
use gas_management.Examples.{ann, two_held}
use gas_management.Service.Tracker.{Tracker}
use gas_management.Service.Tracker.Registry.{
  hold, waiters, waiting_of, highest_held_locked, highest_from,
}
use gas_management.Service.Tracker.Registry.Highest.{IsLastHighest}
use gas_management.Service.Tracker.Chains.{
  inflight_locked, chain_locked, live_chain, nonce_cache_ttl, ttl_of,
}
use gas_management.Service.Reorder.{max_inflight_per_user, make_room_for, surplus_held}
use gas_management.Service.Reorder.Room.{
  Decision, make_room_for-Decision, make_room_for-admits_iff, make_room_for-hold_le,
}
use gas_management.Service.Reorder.Surplus.{surplus_held_iff}

waiting_two : waiters two_held.held ann ≡ 0 ∷ 1 ∷ []
unfolding hold insert Key-discrete
waiting_two = refl

count_two : (inflight_locked two_held ann 0).0 ≡ 2
unfolding inflight_locked waiting_of hold chain_locked live_chain insert Key-discrete
count_two = refl

most_two : max_inflight_per_user two_held.config ≡ 2
unfolding max_inflight_per_user hold
most_two = refl

-- The arriving metatx of nonce 3 takes the place of the held one of nonce 6.
make_room_for-Decision_example : Decision two_held ann 3 0 (make_room_for two_held ann 3 0)
make_room_for-Decision_example = make_room_for-Decision two_held ann 3 0

admitted_three : (make_room_for two_held ann 3 0).0.1 ≡ true
unfolding hold insert Key-discrete
admitted_three =
    (make_room_for-admits_iff two_held ann 3 0).1 (inr (1, inr (inl refl), omega arith))

make_room_for-hold_le_example :
    (inflight_locked (hold (make_room_for two_held ann 3 0).1 ann 3).1 ann 0).0
    ≤ max_inflight_per_user two_held.config
make_room_for-hold_le_example =
    make_room_for-hold_le two_held ann 3 0 (omega (arith, count_two, most_two)) admitted_three

-- A third one is one too many: it is the last of the highest.
abbrev three_held : Tracker
three_held = (hold two_held ann 6).1

surplus_held_iff_example : ((surplus_held three_held ann 2 0).0.1 ≡ true) ↔ (
    (max_inflight_per_user three_held.config < (inflight_locked three_held ann 0).0)
    × IsLastHighest three_held.entries 2 (waiters three_held.held ann))
surplus_held_iff_example = surplus_held_iff three_held ann 2 0

surplus_three : (surplus_held three_held ann 2 0).0.1 ≡ true
unfolding surplus_held max_inflight_per_user inflight_locked waiting_of hold chain_locked live_chain
    insert Key-discrete highest_held_locked highest_from nonce_cache_ttl ttl_of
surplus_three = refl
