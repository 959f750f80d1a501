-- ===== src/Service/Turn/Window.antt =====
-- When the window of a wait starts again.
use gas_management.Base.{
  ℕ, ◌+◌, ◌-◌, ◌<◌, ◌≡◌, refl, ◌⊎◌, inl, inr, Option, none, some, arith, leb, Bool-cases,
}
use gas_management.Service.Rejection.{Result, ok, err}
use gas_management.Service.Tracker.{Tracker}
use gas_management.Service.Tracker.Chains.{sender_key}
use gas_management.Service.Reorder.{HubRead, expected_nonce, surplus_held}
use gas_management.Service.Turn.{
  Turn, Verdict, Progress, finished, sleeping, finish, hold_entry, wait_or_leave, hold_back,
  round_with, round, renewed,
}

-- The expected nonce that a wait has seen, counted so that none is lower than any.
abbrev pub seen : Option ℕ → ℕ
seen none = 0
seen (some n) = n + 1

-- A sleep begins only after an advance within the window, or before the deadline.
abbrev pub SleepsFor : Turn → ℕ → ℕ → Progress → Type 0
SleepsFor turn now later (finished verdict entry) = Unit {0}
SleepsFor turn now later (sleeping turn' id expected remaining) =
    (expected < turn.nonce)
    × (turn'.nonce ≡ turn.nonce)
    × (turn'.window ≡ turn.window)
    × (later < turn'.deadline)
    × (remaining + later ≡ turn'.deadline)
    × (((seen turn.last_expected < expected + 1)
          × (turn'.last_expected ≡ some expected)
          × (turn'.deadline ≡ now + turn.window))
        ⊎ ((expected < seen turn.last_expected)
            × (turn'.last_expected ≡ turn.last_expected)
            × (turn'.deadline ≡ turn.deadline)))

-- The wait is over, or the metatx sleeps until the deadline, which is still to come.
abbrev SleepsOr : Turn → ℕ → ℕ → ℕ → Progress → Type 0
SleepsOr turn id expected later p =
    ((v : Verdict) × (o : Option ℕ) × (p ≡ finished v o))
    ⊎ ((later < turn.deadline) × (p ≡ sleeping turn id expected (turn.deadline - later)))

wait_or_leave-SleepsOr :
    (t : Tracker) (turn : Turn) (id expected later : ℕ)
    → SleepsOr turn id expected later (wait_or_leave t turn id expected later).progress
unfolding wait_or_leave finish
wait_or_leave-SleepsOr t turn id expected later = elim (Bool-cases (leb turn.deadline later)) [
  | inl e ↦ rw e (inl (_, _, refl))
  | inr e ↦ rw e (elim (Bool-cases (surplus_held t (sender_key turn.sender) id later).0.1) [
    | inl out ↦ rw out (inl (_, _, refl))
    | inr stay ↦ rw stay (inr (ground arith, refl))
  ])
]

SleepsOr-SleepsFor :
    (turn : Turn) (id expected now later : ℕ) (p : Progress)
    → expected < turn.nonce
    → SleepsOr (renewed turn id expected now) id expected later p
    → SleepsFor turn now later p
SleepsOr-SleepsFor turn id expected now later p ahead (inl (v, o, e)) = rw e tt
SleepsOr-SleepsFor turn id expected now later p ahead (inr (early, e)) = rw e (ground arith)

round_with-SleepsFor :
    (e : Result ℕ) (t : Tracker) (turn : Turn) (now later : ℕ)
    → SleepsFor turn now later (round_with e t turn now later).progress
unfolding round_with hold_back finish
round_with-SleepsFor (err cause) t turn now later = tt
round_with-SleepsFor (ok expected) t turn now later = elim (Bool-cases (leb turn.nonce expected)) [
  | inl mine ↦ rw mine tt
  | inr ahead ↦
      let (id, t', _) = hold_entry turn.entry t turn expected in
      rw ahead (
        SleepsOr-SleepsFor turn id expected now later _ (ground arith)
          (wait_or_leave-SleepsOr t' (renewed turn id expected now) id expected later))
]

-- A round in which a metatx goes to sleep: its nonce is ahead of the expected one, and it sleeps
-- until its deadline, which is to come. The deadline is a window after this round if the expected
-- nonce is higher than any seen before, and otherwise the deadline that it had.
pub round-SleepsFor :
    (t : Tracker) (turn : Turn) (hub : HubRead) (now later : ℕ)
    → SleepsFor turn now later (round t turn hub now later).progress
unfolding round
round-SleepsFor t turn hub now later =
    round_with-SleepsFor (expected_nonce t turn.sender hub now).0 _ turn now later
