-- ===== src/Service/Turn/Leaves.antt =====
-- How a whole wait leaves the registry.
use mathlib.Core.Option
use gas_management.Base.{
  ℕ, ◌≡◌, refl, subst, Bool, true, false, Option, none, some, List, [], ◌∷◌, Key, All,
}
use gas_management.Service.Tracker.{Tracker}
use gas_management.Service.Tracker.Registry.{waiters, contains}
use gas_management.Service.Tracker.Registry.Invariant.{IsRegistry, stop_waiting-IsRegistry}
use gas_management.Service.Tracker.Chains.{sender_key}
use gas_management.Service.Turn.{
  Turn, TurnEvent, Progress, finished, sleeping, Stepped, prepend, go_on, Wakeup, woken,
  client_left, Resumed, left, again, woken_entry, resume, Round, after_round, play, continue_with,
  await_turn,
}
use gas_management.Service.Turn.Exit.{
  IsFinished, Stands, given_up, finish-Stands, inflight-IsRegistry, round-Stands,
}

abbrev pub ResumedStands : Key → Resumed → Type 0
ResumedStands sender (left s) = IsFinished s.progress × Stands sender s.progress s.tracker
ResumedStands sender (again t turn) = IsRegistry t × (turn.sender ≡ sender)

woken_entry-Stands :
    (evicted : Bool) (t : Tracker) (turn : Turn) (id expected now : ℕ)
    → IsRegistry t
    → ResumedStands turn.sender (woken_entry evicted t turn id expected now)
unfolding woken_entry
woken_entry-Stands true t turn id expected now r = (tt, finish-Stands go_on t turn _ expected now r)
woken_entry-Stands false t turn id expected now r = (r, refl)

resume-Stands :
    (w : Wakeup) (t : Tracker) (turn : Turn) (id expected now : ℕ)
    → IsRegistry t
    → ResumedStands turn.sender (resume w t turn id expected now)
unfolding resume
resume-Stands client_left t turn id expected now r =
    (tt, finish-Stands go_on _ turn _ expected now (stop_waiting-IsRegistry t id r))
resume-Stands woken t turn id expected now r =
    woken_entry-Stands _ _ turn id expected now
      (inflight-IsRegistry _ (sender_key turn.sender) now (stop_waiting-IsRegistry t id r))

-- What the other requests do keeps the registry sound.
abbrev pub Keeps : Round → Type 0
Keeps r = (t : Tracker) → IsRegistry t → IsRegistry (r.others t)

after_round-Stands :
    (sender : Key) (p : Progress) (t : Tracker) (events : List TurnEvent) (r : Round)
    → Keeps r
    → Stands sender p t
    → ResumedStands sender (after_round p t events r).resumed
unfolding after_round
after_round-Stands sender (finished v o) t events r k s = (tt, s)
after_round-Stands sender (sleeping turn id expected remaining) t events r k s =
    subst (λ z. ResumedStands z (resume r.wakeup (r.others t) turn id expected r.resumed_at)) s.1
      (resume-Stands r.wakeup (r.others t) turn id expected r.resumed_at (k t s.0))

play-Stands :
    (t : Tracker) (turn : Turn) (r : Round)
    → Keeps r
    → IsRegistry t
    → ResumedStands turn.sender (play t turn r).resumed
unfolding play
play-Stands t turn r k s =
    after_round-Stands turn.sender _ _ _ r k (round-Stands t turn r.hub r.now r.later s)

-- What a whole wait has come to.
abbrev Ended : Key → Option Stepped → Type 0
Ended sender none = Unit {0}
Ended sender (some s) = IsFinished s.progress × Stands sender s.progress s.tracker

Ended-prepend :
    (sender : Key) (events : List TurnEvent) (o : Option Stepped)
    → Ended sender o
    → Ended sender (Option.map (prepend events) o)
Ended-prepend sender events none h = tt
Ended-prepend sender events (some s) h = h

continue_with-Ended :
    (sender : Key) (x : Resumed) (events : List TurnEvent) (rest : Tracker → Turn → Option Stepped)
    → ((t : Tracker) (turn : Turn)
        → IsRegistry t
        → turn.sender ≡ sender
        → Ended sender (rest t turn))
    → ResumedStands sender x
    → Ended sender (continue_with x events rest)
unfolding continue_with
continue_with-Ended sender (left s) events rest k h = h
continue_with-Ended sender (again t turn) events rest k h =
    Ended-prepend sender events (rest t turn) (k t turn h.0 h.1)

await_turn-Ended :
    (rs : List Round) (t : Tracker) (turn : Turn)
    → All Keeps rs
    → IsRegistry t
    → Ended turn.sender (await_turn t turn rs)
unfolding await_turn
await_turn-Ended [] t turn k r = tt
await_turn-Ended (x ∷ rs) t turn k r =
    continue_with-Ended turn.sender _ _ _
      (λ u turn' s e.
        subst (λ z. Ended z (await_turn u turn' rs)) e (await_turn-Ended rs u turn' k.1 s))
      (play-Stands t turn x k.0 r)

Ended_leaves :
    (sender : Key) (p : Progress) (t : Tracker) (id : ℕ)
    → IsFinished p × Stands sender p t
    → given_up p ≡ some id
    → IsRegistry t × (contains id (waiters t.held (sender_key sender)) ≡ false)
Ended_leaves sender (finished v o) t id h e = let (r, out) = h.1 in (r, out id e)
Ended_leaves sender (sleeping turn entry expected remaining) t id h e = absurd h.0

-- However a wait ends, whatever the node, the clock and the other requests do meanwhile, as long as
-- these keep the registry sound: the entry that it had in the registry is out of it, and the
-- registry is sound.
pub await_turn_leaves :
    (rs : List Round) (t : Tracker) (turn : Turn) (s : Stepped) (id : ℕ)
    → All Keeps rs
    → IsRegistry t
    → await_turn t turn rs ≡ some s
    → given_up s.progress ≡ some id
    → IsRegistry s.tracker × (contains id (waiters s.tracker.held (sender_key turn.sender)) ≡ false)
await_turn_leaves rs t turn s id k r e g =
    Ended_leaves turn.sender s.progress s.tracker id
      (subst (Ended turn.sender) e (await_turn-Ended rs t turn k r)) g
