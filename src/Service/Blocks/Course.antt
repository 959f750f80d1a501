-- ===== src/Service/Blocks/Course.antt =====
-- What the loop over new blocks has to do: the course of its waits, of its end, and of its blocks.
use gas_management.Base.{
  ℕ, zero, suc, ◌+◌, ◌*◌, ◌^◌, ◌≤◌, ◌≡◌, ◌↔◌, refl, ap, ◌∙◌, Bool, true, false, List, [], ◌∷◌, ◌++◌,
  ltb, arith, if◌then◌else◌, All, ◌⊎◌, inl, inr,
}
use native.Mathlib.Omega.{pow_step}
use gas_management.Config.{second}
use gas_management.Service.Blocks.{
  Head, Cycle, stopped, not_connected, not_subscribed, served, lost, Plant, max_backoff,
  next_backoff, new_heads, Run,
}

-- The wait after this many failures in a row: 2 to their number in seconds, and 30 at most.
abbrev pub wait_after : ℕ → ℕ
wait_after failures = let w = 2 ^ failures * second in if ltb max_backoff w then max_backoff else w

-- What a run of the loop has to be, after this many failures: whether it returns, which it does at the
-- first pass with `done`, its waits, and the blocks that it hands on.
pub record Course : Type 0 where
  pub returns : Bool
  pub waits : List ℕ
  pub heads : List Head

abbrev pub waits_first : Bool → ℕ → Course → Course
waits_first true d rest = record { returns = true; waits = d ∷ []; heads = [] }
waits_first false d rest = record {
  returns = rest.returns;
  waits = d ∷ rest.waits;
  heads = rest.heads;
}

abbrev pub hands_on : List Head → Course → Course
hands_on hs c = record c { heads = hs ++ c.heads }

abbrev pub course : List Cycle → ℕ → Course
course [] failures = record { returns = false; waits = []; heads = [] }
course (stopped ∷ cs) failures = record { returns = true; waits = []; heads = [] }
course (not_connected done ∷ cs) failures =
    waits_first done (wait_after failures) (course cs (failures + 1))
course (not_subscribed done ∷ cs) failures =
    waits_first done (wait_after failures) (course cs (failures + 1))
course (served hs ∷ cs) failures = record { returns = true; waits = []; heads = hs }
course (lost hs done ∷ cs) failures = hands_on hs (waits_first done (wait_after 0) (course cs 1))

abbrev pub run_of : Course → Plant → Run
run_of c s = ((c.returns, c.waits), new_heads c.heads s)

pow_suc : (k : ℕ) → 2 ^ (k + 1) ≡ 2 ^ k + 2 ^ k
pow_suc k = let e : (k + 1 ≡ suc k) = omega arith in ap (λ n. 2 ^ n) e ∙ omega (arith, pow_step 2 k)

pub next_backoff-wait_after : (k : ℕ) → next_backoff (wait_after k) max_backoff ≡ wait_after (k + 1)
unfolding next_backoff
next_backoff-wait_after k = ground (arith, pow_suc k)

-- The pass ends the loop.
abbrev pub Stops : Cycle → Type 0
Stops stopped = Unit
Stops (not_connected done) = done ≡ true
Stops (not_subscribed done) = done ≡ true
Stops (served hs) = Unit
Stops (lost hs done) = done ≡ true

abbrev pub AnyStops : List Cycle → Type 0
AnyStops [] = ⊥
AnyStops (c ∷ cs) = Stops c ⊎ AnyStops cs

waits_first-returns :
    (done : Bool) (d : ℕ) (rest : Course) (cs : List Cycle)
    → (rest.returns ≡ true) ↔ AnyStops cs
    → ((waits_first done d rest).returns ≡ true) ↔ ((done ≡ true) ⊎ AnyStops cs)
waits_first-returns true d rest cs h = (λ e. inl refl, λ e. refl)
waits_first-returns false d rest cs h =
    (λ e. inr (h.0 e), λ e. elim e [ inl k ↦ absurd (cc) | inr k ↦ h.1 k ])

pub course-AnyStops :
    (cs : List Cycle) (failures : ℕ) → ((course cs failures).returns ≡ true) ↔ AnyStops cs
course-AnyStops [] failures = (λ e. absurd (cc), λ e. absurd e)
course-AnyStops (stopped ∷ cs) failures = (λ e. inl tt, λ e. refl)
course-AnyStops (not_connected done ∷ cs) failures =
    waits_first-returns done (wait_after failures) (course cs (failures + 1)) cs
      (course-AnyStops cs (failures + 1))
course-AnyStops (not_subscribed done ∷ cs) failures =
    waits_first-returns done (wait_after failures) (course cs (failures + 1)) cs
      (course-AnyStops cs (failures + 1))
course-AnyStops (served hs ∷ cs) failures = (λ e. inl tt, λ e. refl)
course-AnyStops (lost hs done ∷ cs) failures =
    waits_first-returns done (wait_after 0) (course cs 1) cs (course-AnyStops cs 1)

abbrev pub IsWait : ℕ → Type 0
IsWait w = (second ≤ w) × (w ≤ max_backoff)

pow_pos : (k : ℕ) → 1 ≤ 2 ^ k
pow_pos zero = omega arith
pow_pos (suc k) = omega (arith, pow_pos k, pow_step 2 k)

wait_after-IsWait : (k : ℕ) → IsWait (wait_after k)
wait_after-IsWait k = ground (arith, pow_pos k)

waits_first-IsWait :
    (done : Bool) (k : ℕ) (rest : Course)
    → All IsWait rest.waits
    → All IsWait (waits_first done (wait_after k) rest).waits
waits_first-IsWait true k rest h = (wait_after-IsWait k, tt)
waits_first-IsWait false k rest h = (wait_after-IsWait k, h)

pub course-IsWait : (cs : List Cycle) (failures : ℕ) → All IsWait (course cs failures).waits
course-IsWait [] failures = tt
course-IsWait (stopped ∷ cs) failures = tt
course-IsWait (not_connected done ∷ cs) failures =
    waits_first-IsWait done failures (course cs (failures + 1)) (course-IsWait cs (failures + 1))
course-IsWait (not_subscribed done ∷ cs) failures =
    waits_first-IsWait done failures (course cs (failures + 1)) (course-IsWait cs (failures + 1))
course-IsWait (served hs ∷ cs) failures = tt
course-IsWait (lost hs done ∷ cs) failures =
    waits_first-IsWait done 0 (course cs 1) (course-IsWait cs 1)
