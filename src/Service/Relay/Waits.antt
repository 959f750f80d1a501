-- ===== src/Service/Relay/Waits.antt =====
-- How the wait for a receipt ends.
use gas_management.Base.{
  ℕ, ◌≡◌, refl, sym, ap, subst, ◌∙◌, Bool, Option, none, some, List, [], ◌∷◌, ◌++◌, All,
}
use gas_management.Config.{Config}
use gas_management.Service.Rejection.{Cause, Result, ok, err, client_stopped_waiting}
use gas_management.Service.Relay.{
  MinedReceipt, Poll, Wake, deadline_passed, client_gone, ticked, last_error, deadline_error,
  select_wake, poll_or_select, poll_receipt, wait_timeout, wait_for_receipt,
}

-- The node has no receipt, or fails to answer.
abbrev pub NoReceipt : Result (Option MinedReceipt) → Type 0
NoReceipt (err cause) = Unit {0}
NoReceipt (ok none) = Unit {0}
NoReceipt (ok (some receipt)) = ⊥

-- A round after which the wait goes on.
abbrev pub IsQuiet : Poll → Type 0
IsQuiet p = NoReceipt p.answer × (p.wake ≡ ticked)

abbrev error_of : Result (Option MinedReceipt) → Option Cause
error_of (err cause) = some cause
error_of (ok receipt) = none

abbrev cause_or : Option Cause → Option Cause → Option Cause
cause_or none o = o
cause_or (some cause) o = some cause

-- The last of the errors that the polls met.
unfoldable pub last_cause : List Poll → Option Cause
last_cause [] = none
last_cause (p ∷ ps) = cause_or (last_cause ps) (error_of p.answer)

last_error-or :
    (later before : Option Cause) (a : Result (Option MinedReceipt))
    → cause_or later (last_error before a) ≡ cause_or (cause_or later (error_of a)) before
unfolding last_error
last_error-or none before (err cause) = refl
last_error-or none before (ok receipt) = refl
last_error-or (some c) before a = refl

cause_or-none : (o : Option Cause) → cause_or o none ≡ o
cause_or-none none = refl
cause_or-none (some cause) = refl

-- How a wait ends with the round `p`, after polls that met `before` as their last error.
abbrev pub EndsBy : ℕ → Poll → Option Cause → Option (Result MinedReceipt) → Type 0
EndsBy timeout p before outcome =
    ((receipt : MinedReceipt) → p.answer ≡ ok (some receipt) → outcome ≡ some (ok receipt))
    × (NoReceipt p.answer
        → p.wake ≡ deadline_passed
        → outcome ≡ some (err (deadline_error timeout before)))
    × (NoReceipt p.answer → p.wake ≡ client_gone → outcome ≡ some (err client_stopped_waiting))

quiet-poll :
    (a : Result (Option MinedReceipt)) (w : Wake) (timeout : ℕ) (before : Option Cause)
    (rest : Option (Result MinedReceipt))
    → NoReceipt a
    → w ≡ ticked
    → poll_or_select a w timeout before rest ≡ rest
unfolding poll_or_select select_wake
quiet-poll (err c) w timeout before rest h e = ap (λ x. select_wake x timeout before rest) e
quiet-poll (ok none) w timeout before rest h e = ap (λ x. select_wake x timeout before rest) e
quiet-poll (ok (some r)) w timeout before rest h e = absurd h

decisive-poll :
    (a : Result (Option MinedReceipt)) (w : Wake) (timeout : ℕ) (before : Option Cause)
    (rest : Option (Result MinedReceipt))
    → EndsBy timeout
        (record { answer = a; wake = w })
        before
        (poll_or_select a w timeout before rest)
unfolding poll_or_select select_wake
decisive-poll (err c) w timeout before rest = (
  λ r e. absurd (cc),
  λ _ e. ap (λ x. select_wake x timeout before rest) e,
  λ _ e. ap (λ x. select_wake x timeout before rest) e,
)
decisive-poll (ok none) w timeout before rest = (
  λ r e. absurd (cc),
  λ _ e. ap (λ x. select_wake x timeout before rest) e,
  λ _ e. ap (λ x. select_wake x timeout before rest) e,
)
decisive-poll (ok (some r)) w timeout before rest = (λ q e. cc, λ h e. absurd h, λ h e. absurd h)

poll_receipt-ends :
    (quiet : List Poll) (p : Poll) (rest : List Poll) (timeout : ℕ) (before : Option Cause)
    → All IsQuiet quiet
    → EndsBy timeout p
        (cause_or (last_cause (quiet ++ p ∷ [])) before)
        (poll_receipt (quiet ++ p ∷ rest) timeout before)
unfolding poll_receipt last_cause
poll_receipt-ends [] p rest timeout before h =
    subst
      (λ c. EndsBy timeout p c (
        poll_or_select p.answer p.wake timeout (last_error before p.answer)
          (poll_receipt rest timeout (last_error before p.answer))))
      (last_error-or none before p.answer)
      (decisive-poll p.answer p.wake timeout (last_error before p.answer)
        (poll_receipt rest timeout (last_error before p.answer)))
poll_receipt-ends (q ∷ quiet) p rest timeout before ((h, e), hs) =
    let before' = last_error before q.answer in
    let rest' = poll_receipt (quiet ++ p ∷ rest) timeout before' in
    let later = last_cause (quiet ++ p ∷ []) in
    subst (λ c. EndsBy timeout p c (poll_or_select q.answer q.wake timeout before' rest'))
      (last_error-or later before q.answer)
      (subst (λ o. EndsBy timeout p (cause_or later before') o)
        (sym (quiet-poll q.answer q.wake timeout before' rest' h e))
        (poll_receipt-ends quiet p rest timeout before' hs))

poll_receipt-waits :
    (quiet : List Poll) (timeout : ℕ) (before : Option Cause)
    → All IsQuiet quiet
    → poll_receipt quiet timeout before ≡ none
unfolding poll_receipt
poll_receipt-waits [] timeout before h = refl
poll_receipt-waits (q ∷ quiet) timeout before ((h, e), hs) =
    let before' = last_error before q.answer in
    quiet-poll q.answer q.wake timeout before' (poll_receipt quiet timeout before') h e
    ∙ poll_receipt-waits quiet timeout before' hs

-- Once the node is connected, the wait goes on as long as the polls find no receipt and only the
-- ticker wakes it, whatever errors the node answers with. The first poll that finds the receipt ends
-- it with that receipt, even if the deadline has passed. The deadline ends it with an error that
-- repeats the last error of all polls so far, if there was one, and a client who leaves with another.
pub wait_for_receipt-ends :
    (config : Config) (b : Bool) (quiet : List Poll) (p : Poll) (rest : List Poll)
    → All IsQuiet quiet
    → (wait_for_receipt config (ok b) quiet ≡ none)
      × EndsBy
          (wait_timeout config)
          p
          (last_cause (quiet ++ p ∷ []))
          (wait_for_receipt config (ok b) (quiet ++ p ∷ rest))
unfolding wait_for_receipt
wait_for_receipt-ends config b quiet p rest h = (
  poll_receipt-waits quiet (wait_timeout config) none h,
  subst
      (λ c.
        EndsBy (wait_timeout config) p c
          (poll_receipt (quiet ++ p ∷ rest) (wait_timeout config) none))
      (cause_or-none (last_cause (quiet ++ p ∷ [])))
      (poll_receipt-ends quiet p rest (wait_timeout config) none h),
)
