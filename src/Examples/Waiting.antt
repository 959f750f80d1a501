-- ===== src/Examples/Waiting.antt =====
-- A metatx of nonce 1 while the hub expects 0: it is held for a window, and leaves.
use gas_management.Base.{
  ℕ, ◌≡◌, refl, ap, inl, inr, false, Option, some, none, [], ◌∷◌, arith, Key-discrete, insert,
  delete,
}
use gas_management.Examples.{ann, idle, small_config}
use gas_management.Base.Ids.{contains}
use gas_management.Service.Tracker.Registry.{
  waiters, hold, wait_turn_locked, stop_waiting_locked, waiting_of,
}
use gas_management.Service.Tracker.Registry.Invariant.{IsRegistry, empty-IsRegistry}
use gas_management.Service.Tracker.Chains.{
  sender_key, to_lower, cached_nonce, chain_locked, live_chain, inflight_locked,
}
use gas_management.Service.Reorder.{
  nonce_is, expected_nonce, surplus_held, max_inflight_per_user, reorder_window,
}
use gas_management.Service.Turn.{
  Turn, Round, Stepped, woken, start_turn, round, play, await_turn, again, left, Resumed, finished,
  go_on, round_with, after_round, resume, woken_entry, hold_back, wait_or_leave, hold_entry,
  continue_with, release, release_entry, finish,
}
use gas_management.Service.Turn.Exit.{given_up}
use gas_management.Service.Turn.Leaves.{await_turn_leaves}
use gas_management.Service.Turn.Window.{SleepsFor, round-SleepsFor}
use gas_management.Service.Turn.End.{await_turn_ends}

abbrev waiting : Turn
waiting = start_turn idle ann 1 0

abbrev first : Round
first = record {
  hub = nonce_is 0;
  now = 0;
  later = 0;
  others = λ t. t;
  wakeup = woken;
  resumed_at = 1000000000;
}

abbrev second : Round
second = record {
  hub = nonce_is 0;
  now = 1000000000;
  later = 1000000000;
  others = λ t. t;
  wakeup = woken;
  resumed_at = 2000000000;
}

round-SleepsFor_example : SleepsFor waiting 0 0 (round idle waiting (nonce_is 0) 0 0).progress
round-SleepsFor_example = round-SleepsFor idle waiting (nonce_is 0) 0 0

abbrev deadline_of : Resumed → ℕ
deadline_of (left s) = 0
deadline_of (again t turn) = turn.deadline

abbrev or_idle : Option Stepped → Stepped
or_idle none = record { progress = finished go_on none; tracker = idle; events = [] }
or_idle (some s) = s

deadline_one : deadline_of (play idle waiting first).resumed ≡ 1000000000
unfolding start_turn play round round_with after_round resume woken_entry hold_back wait_or_leave
    hold_entry hold insert delete Key-discrete expected_nonce cached_nonce chain_locked live_chain
    surplus_held inflight_locked waiting_of max_inflight_per_user wait_turn_locked
    stop_waiting_locked reorder_window sender_key to_lower
deadline_one = refl

await_turn_ends_example : (s : Stepped) × (await_turn idle waiting (first ∷ second ∷ []) ≡ some s)
unfolding start_turn
await_turn_ends_example =
    await_turn_ends (first ∷ second ∷ []) idle waiting
      (
        inl refl,
        λ t turn e.
            (inr (let d = ap deadline_of e in omega (arith, d, deadline_one)), λ t' turn' e'. tt),
      )
      (omega arith) (omega arith)

abbrev over : Stepped
over = or_idle (await_turn idle waiting (first ∷ second ∷ []))

over_is :
    (await_turn idle waiting (first ∷ second ∷ []) ≡ some over) × (given_up over.progress ≡ some 0)
unfolding await_turn continue_with release release_entry finish start_turn play round round_with
    after_round resume woken_entry hold_back wait_or_leave hold_entry hold insert delete
    Key-discrete expected_nonce cached_nonce chain_locked live_chain surplus_held inflight_locked
    waiting_of max_inflight_per_user wait_turn_locked stop_waiting_locked reorder_window sender_key
    to_lower
over_is = (refl, refl)

await_turn_leaves_example :
    IsRegistry over.tracker
    × (contains 0 (waiters over.tracker.held (sender_key waiting.sender)) ≡ false)
await_turn_leaves_example =
    await_turn_leaves (first ∷ second ∷ []) idle waiting over 0 (λ t i. i, (λ t i. i, tt))
      (empty-IsRegistry (some small_config)) over_is.0 over_is.1
