-- ===== src/Service/Turn.antt =====
-- service/reorder_turn.go: a metatx waits for its turn. One round of the loop runs from its top to
-- the `select`; what wakes the metatx, and what the other requests did to the tracker meanwhile, is
-- a list of rounds that the environment chooses.
pub mod Exit
pub mod Leaves
pub mod Window
pub mod End
use gas_management.Base.{
  ℕ, ◌+◌, ◌-◌, ◌*◌, ◌/◌, Bool, true, false, ◌||◌, Option, none, some, List, [], ◌∷◌, ◌++◌, Key, ltb,
  leb, if◌then◌else◌,
}
use mathlib.Core.Option
use gas_management.Config.{millisecond}
use gas_management.Service.Rejection.{
  Rejection, Cause, Code, Result, ok, err, reject, relay_error, client_closed,
}
use gas_management.Service.Tracker.{Tracker}
use gas_management.Service.Tracker.Registry.{hold, unhold, wait_turn_locked, stop_waiting_locked}
use gas_management.Service.Tracker.Chains.{inflight_locked, sender_key}
use gas_management.Service.Reorder.{
  HubRead, expected_nonce, reorder_window, max_inflight_per_user, too_many_inflight_rejection,
  surplus_held,
}

pub data Reason : Type 0 where
  turn_in_turn turn_window_expired turn_too_many_inflight turn_client_gone : Reason

-- The log lines `relay.held` and `relay.turn`, with their fields.
pub data TurnEvent : Type 0 where
  relay_held : (nonce expected gap window_ms : ℕ) → TurnEvent
  relay_turn : (held_ms : ℕ) (reason : Reason) (nonce expected : ℕ) → TurnEvent

-- The variables of `awaitTurn`; `last_expected` is none until an expected nonce was seen.
pub record Turn : Type 0 where
  pub sender : Key
  pub nonce : ℕ
  pub window : ℕ
  pub deadline : ℕ
  pub started_at : ℕ
  pub last_expected : Option ℕ
  pub entry : Option ℕ

-- Nil, or the error that `awaitTurn` returns.
pub data Verdict : Type 0 where
  go_on : Verdict
  refused : Rejection → Verdict

-- The end, with the entry that was given up, or a sleep until the window expires.
pub data Progress : Type 0 where
  finished : Verdict → Option ℕ → Progress
  sleeping : Turn → (entry expected remaining : ℕ) → Progress

-- The state after a step, what it came to, and the log lines in order.
pub record Stepped : Type 0 where
  pub progress : Progress
  pub tracker : Tracker
  pub events : List TurnEvent

unfoldable pub start_turn : Tracker → Key → ℕ → ℕ → Turn
start_turn t sender nonce now = record {
  sender = sender;
  nonce = nonce;
  window = reorder_window t.config;
  deadline = now + reorder_window t.config;
  started_at = now;
  last_expected = none;
  entry = none;
}

-- The closure `release`: only a metatx that was held leaves the registry and the log line.
unfoldable pub release_entry : Option ℕ → Tracker → Turn → Reason → ℕ → ℕ → Tracker × List TurnEvent
release_entry none t turn reason expected now = (t, [])
release_entry (some id) t turn reason expected now = (
  unhold t (sender_key turn.sender) id,
  relay_turn ((now - turn.started_at) / millisecond) reason turn.nonce expected ∷ [],
)

unfoldable pub release : Tracker → Turn → Reason → ℕ → ℕ → Tracker × List TurnEvent
unfolding release_entry
release t turn reason expected now = release_entry turn.entry t turn reason expected now

unfoldable pub finish : Verdict → Turn → Tracker × List TurnEvent → Stepped
finish verdict turn (t, events) = record {
  progress = finished verdict turn.entry;
  tracker = t;
  events = events;
}

-- The first round that has to wait registers the metatx.
unfoldable pub hold_entry : Option ℕ → Tracker → Turn → ℕ → ℕ × Tracker × List TurnEvent
hold_entry (some id) t turn expected = (id, t, [])
hold_entry none t turn expected =
    let (id, t') = hold t (sender_key turn.sender) turn.nonce in
    (
      id,
      t',
      relay_held turn.nonce expected (turn.nonce - expected) (turn.window / millisecond) ∷ [],
    )

abbrev pub advanced : Option ℕ → ℕ → Bool
advanced none expected = true
advanced (some last) expected = ltb last expected

-- The window starts again when the expected nonce has moved on.
abbrev pub renewed : Turn → ℕ → ℕ → ℕ → Turn
renewed turn id expected now =
    if advanced turn.last_expected expected
    then record turn {
      entry = some id;
      last_expected = some expected;
      deadline = now + turn.window;
    }
    else record turn { entry = some id }

-- The end of the round: the window may have expired, this metatx may be the one too many, or it
-- goes to sleep on a new channel.
unfoldable pub wait_or_leave : Tracker → Turn → ℕ → ℕ → ℕ → Stepped
unfolding release finish
wait_or_leave t turn id expected later =
    if leb turn.deadline later
    then finish go_on turn (release t turn turn_window_expired expected later)
    else (let ((inflight, too_many), t') = surplus_held t (sender_key turn.sender) id later in
        if too_many
        then finish
            (refused (too_many_inflight_rejection inflight (max_inflight_per_user t'.config))) turn
            (release t' turn turn_too_many_inflight expected later)
        else record {
          progress = sleeping turn id expected (turn.deadline - later);
          tracker = (wait_turn_locked t' id).1;
          events = [];
        })

abbrev pub prepend : List TurnEvent → Stepped → Stepped
prepend events s = record s { events = events ++ s.events }

-- The nonce is ahead of the expected one: the metatx is held.
unfoldable pub hold_back : Tracker → Turn → ℕ → ℕ → ℕ → Stepped
unfolding hold_entry wait_or_leave
hold_back t turn expected now later =
    let (id, t', events) = hold_entry turn.entry t turn expected in
    prepend events (wait_or_leave t' (renewed turn id expected now) id expected later)

unfoldable pub round_with : Result ℕ → Tracker → Turn → ℕ → ℕ → Stepped
unfolding release finish hold_back
round_with (err cause) t turn now later =
    finish (refused (reject cause relay_error)) turn (release t turn turn_window_expired 0 later)
round_with (ok expected) t turn now later =
    if leb turn.nonce expected
    then finish go_on turn (release t turn turn_in_turn expected later)
    else hold_back t turn expected now later

-- One round: `now` is the time of its reads, and `later` that of its look at the deadline.
unfoldable pub round : Tracker → Turn → HubRead → ℕ → ℕ → Stepped
unfolding round_with
round t turn hub now later =
    let (expected, t') = expected_nonce t turn.sender hub now in
    round_with expected t' turn now later

-- Why `select` went on: the channel or the timer, or the client.
pub data Wakeup : Type 0 where
  woken client_left : Wakeup

pub data Resumed : Type 0 where
  left : Stepped → Resumed
  again : Tracker → Turn → Resumed

-- A metatx that was evicted in its sleep is refused, with the count that justified the eviction.
unfoldable pub woken_entry : Bool → Tracker → Turn → ℕ → ℕ → ℕ → Resumed
unfolding release finish
woken_entry true t turn id expected now = left (
    finish
      (refused (
        too_many_inflight_rejection (t.entries id).evicted_inflight
          (max_inflight_per_user t.config)))
      turn (release t turn turn_too_many_inflight expected now))
woken_entry false t turn id expected now = again t turn

-- After the `select`: the channel is given up; whoever was evicted leaves, and so does whoever has
-- lost the client. The count is read on either path, which may drop an expired chain.
unfoldable pub resume : Wakeup → Tracker → Turn → ℕ → ℕ → ℕ → Resumed
unfolding woken_entry release finish
resume client_left t turn id expected now = left (
    finish (refused (reject client_closed relay_error)) turn
      (release (stop_waiting_locked t id) turn turn_client_gone expected now))
resume woken t turn id expected now =
    let t' = (inflight_locked (stop_waiting_locked t id) (sender_key turn.sender) now).1 in
    woken_entry (t'.entries id).evicted t' turn id expected now

-- What the environment does in one round: the answer of the node and the times of the round, what
-- the other requests do to the tracker during the sleep, and the wake-up with its time.
pub record Round : Type 0 where
  pub hub : HubRead
  pub now : ℕ
  pub later : ℕ
  pub others : Tracker → Tracker
  pub wakeup : Wakeup
  pub resumed_at : ℕ

pub record Continued : Type 0 where
  pub resumed : Resumed
  pub events : List TurnEvent

unfoldable pub after_round : Progress → Tracker → List TurnEvent → Round → Continued
unfolding resume
after_round (finished verdict entry) t events r = record {
  resumed = left (record { progress = finished verdict entry; tracker = t; events = [] });
  events = events;
}
after_round (sleeping turn id expected remaining) t events r = record {
  resumed = resume r.wakeup (r.others t) turn id expected r.resumed_at;
  events = events;
}

unfoldable pub play : Tracker → Turn → Round → Continued
unfolding round after_round
play t turn r =
    let s = round t turn r.hub r.now r.later in after_round s.progress s.tracker s.events r

-- The wait ends, or goes on from the state that the round left.
unfoldable pub continue_with :
    Resumed → List TurnEvent → (Tracker → Turn → Option Stepped) → Option Stepped
continue_with (left s) events rest = some (prepend events s)
continue_with (again t turn) events rest = Option.map (prepend events) (rest t turn)

-- `awaitTurn` over the rounds that the environment plays; none where they do not reach its end.
unfoldable pub await_turn : Tracker → Turn → List Round → Option Stepped
unfolding continue_with
await_turn t turn [] = none
await_turn t turn (r ∷ rs) =
    let c = play t turn r in continue_with c.resumed c.events (λ t' turn'. await_turn t' turn' rs)
