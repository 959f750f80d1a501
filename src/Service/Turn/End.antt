-- ===== src/Service/Turn/End.antt =====
-- How many rounds a wait has.
use mathlib.Core.Option
use gas_management.Base.{
  ℕ, ◌+◌, ◌≤◌, ◌<◌, ◌≡◌, refl, ap, subst, ◌⊎◌, Bool, true, false, Option, none, some, List, [], ◌∷◌,
  arith, length,
}
use gas_management.Service.Tracker.{Tracker}
use gas_management.Service.Turn.{
  Turn, TurnEvent, Progress, finished, sleeping, Stepped, prepend, Wakeup, woken, client_left,
  Resumed, left, again, woken_entry, resume, Round, after_round, play, continue_with, await_turn,
}
use gas_management.Service.Turn.Window.{seen, SleepsFor, round-SleepsFor}

-- The wait goes on: the expected nonce has advanced, or the deadline is the old one and to come.
abbrev GoesOn : Turn → ℕ → Resumed → Type 0
GoesOn turn later (left s) = Unit {0}
GoesOn turn later (again t turn') =
    (turn'.nonce ≡ turn.nonce)
    × (((seen turn.last_expected < seen turn'.last_expected)
          × (seen turn'.last_expected ≤ turn.nonce))
        ⊎ ((later < turn.deadline) × (0 < seen turn.last_expected)))

woken_entry-GoesOn :
    (evicted : Bool) (t : Tracker) (turn turn' : Turn) (id expected now later : ℕ)
    → GoesOn turn later (again t turn')
    → GoesOn turn later (woken_entry evicted t turn' id expected now)
unfolding woken_entry
woken_entry-GoesOn true t turn turn' id expected now later h = tt
woken_entry-GoesOn false t turn turn' id expected now later h = h

resume-GoesOn :
    (w : Wakeup) (t u : Tracker) (turn turn' : Turn) (id expected now later : ℕ)
    → GoesOn turn later (again u turn')
    → GoesOn turn later (resume w t turn' id expected now)
unfolding resume
resume-GoesOn client_left t u turn turn' id expected now later h = tt
resume-GoesOn woken t u turn turn' id expected now later h =
    woken_entry-GoesOn _ _ turn turn' id expected now later h

after_round-GoesOn :
    (p : Progress) (t : Tracker) (turn : Turn) (events : List TurnEvent) (r : Round)
    → SleepsFor turn r.now r.later p
    → GoesOn turn r.later (after_round p t events r).resumed
unfolding after_round
after_round-GoesOn (finished v o) t turn events r h = tt
after_round-GoesOn (sleeping turn' id expected remaining) t turn events r h =
    resume-GoesOn r.wakeup (r.others t) t turn turn' id expected r.resumed_at r.later (ground arith)

play-GoesOn : (t : Tracker) (turn : Turn) (r : Round) → GoesOn turn r.later (play t turn r).resumed
unfolding play
play-GoesOn t turn r = after_round-GoesOn _ _ turn _ r (round-SleepsFor t turn r.hub r.now r.later)

-- Each round but the first looks at the clock when the deadline of the sleep before it has passed.
abbrev pub IsTimely : Tracker → Turn → List Round → Type 0
IsTimely t turn [] = Unit
IsTimely t turn (r ∷ rs) =
    ((turn.last_expected ≡ none) ⊎ (turn.deadline ≤ r.later))
    × ((t' : Tracker) (turn' : Turn)
        → (play t turn r).resumed ≡ again t' turn'
        → IsTimely t' turn' rs)

continue_ends :
    (x : Resumed) (events : List TurnEvent) (rest : Tracker → Turn → Option Stepped)
    → ((t : Tracker) (turn : Turn) → x ≡ again t turn → (s : Stepped) × (rest t turn ≡ some s))
    → (s : Stepped) × (continue_with x events rest ≡ some s)
unfolding continue_with
continue_ends (left s) events rest k = (prepend events s, refl)
continue_ends (again t turn) events rest k =
    let (s, e) = k t turn refl in (prepend events s, ap (Option.map (prepend events)) e)

later_seen :
    (t t' : Tracker) (turn turn' : Turn) (r : Round)
    → (turn.last_expected ≡ none) ⊎ (turn.deadline ≤ r.later)
    → (play t turn r).resumed ≡ again t' turn'
    → (turn'.nonce ≡ turn.nonce)
      × (seen turn'.last_expected ≤ turn.nonce)
      × (seen turn.last_expected < seen turn'.last_expected)
later_seen t t' turn turn' r w e =
    let h : GoesOn turn r.later (again t' turn') =
      subst (GoesOn turn r.later) e (play-GoesOn t turn r) in
    ground arith

-- A wait ends, with more rounds than expected nonces that are still to be seen below its own: a
-- metatx whose turn does not come leaves when its window has passed with no advance.
pub await_turn_ends :
    (rs : List Round) (t : Tracker) (turn : Turn)
    → IsTimely t turn rs
    → seen turn.last_expected ≤ turn.nonce
    → turn.nonce < seen turn.last_expected + length rs
    → (s : Stepped) × (await_turn t turn rs ≡ some s)
unfolding await_turn
await_turn_ends [] t turn timely low enough = absurd (omega arith)
await_turn_ends (r ∷ rs) t turn timely low enough =
    continue_ends (play t turn r).resumed _ _ λ t' turn' e.
      let (nonce, low', up) = later_seen t t' turn turn' r timely.0 e in
      await_turn_ends rs t' turn' (timely.1 t' turn' e) (omega arith) (omega arith)
