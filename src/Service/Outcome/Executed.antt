-- ===== src/Service/Outcome/Executed.antt =====
-- What the events of the hub say of the execution.
use gas_management.Base.{
  ℕ, ◌≡◌, ◌↔◌, refl, sym, ap, ◌∙◌, Bool, true, false, not, ◌&&◌, ◌||◌, Option, none, some, List,
  arith, if◌then◌else◌,
}
use gas_management.Service.Outcome.Seen.{
  seen, is_deployed, is_transaction, is_bad, is_relayed, read_logs-flag, read_kind-deployed,
  read_kind-transaction, read_kind-bad, read_kind-relayed, read_kind-hub_rejected,
}
use gas_management.Service.Tracker.{Tracker}
use gas_management.Service.HubLog.{Log, Hub}
use gas_management.Service.Outcome.{
  Reading, read_logs, first_reading, silent_failure, executed_or, finish, MetaTxOutcome, outcome_of,
  read_hub_events,
}
use gas_management.Service.Outcome.Panics.{
  Hostile, panics, before_panic, panics_iff, calm-panics, read_hub_events-loop,
  read_hub_events-calm,
}
use gas_management.Service.Outcome.Verdict.{
  or_else, last_verdict, said, said-last_verdict, read_logs-executed,
}

silent_failure-executed :
    (r : Reading)
    → (silent_failure r).executed ≡ (
        if r.saw_relayed
          && (not r.saw_contract_deployed
              && (not r.saw_transaction_relayed && not r.saw_bad_transaction))
        then some false
        else r.outcome.executed)
unfolding silent_failure
silent_failure-executed r = ground arith

silent_failure-hub_rejected :
    (r : Reading) → (silent_failure r).hub_rejected ≡ r.outcome.hub_rejected
unfolding silent_failure
silent_failure-hub_rejected r = ground arith

-- What is said of the execution without a verdict.
abbrev pub by_default : Bool → Bool → Option Bool
by_default deployed relayed = if deployed then some true else (if relayed then some false else none)

executed_or_lem :
    (o : Option Bool) (deployed transaction bad relayed : Bool)
    → said o ≡ transaction || bad
    → executed_or
        (if relayed && (not deployed && (not transaction && not bad)) then some false else o)
        (transaction || deployed)
      ≡ or_else o (by_default deployed relayed)
unfolding executed_or
executed_or_lem none true true bad relayed h = absurd (cc)
executed_or_lem none true false true relayed h = absurd (cc)
executed_or_lem none true false false true h = refl
executed_or_lem none true false false false h = refl
executed_or_lem none false true bad relayed h = absurd (cc)
executed_or_lem none false false true relayed h = absurd (cc)
executed_or_lem none false false false true h = refl
executed_or_lem none false false false false h = refl
executed_or_lem (some x) true transaction bad true h = refl
executed_or_lem (some x) true transaction bad false h = refl
executed_or_lem (some x) false true bad true h = refl
executed_or_lem (some x) false true bad false h = refl
executed_or_lem (some x) false false true true h = refl
executed_or_lem (some x) false false true false h = refl
executed_or_lem (some x) false false false relayed h = absurd (cc)

finish-executed :
    (hub : Hub) (logs : List Log) (r : Reading)
    → r.outcome.executed ≡ last_verdict hub logs
    → r.saw_contract_deployed ≡ seen is_deployed hub logs
    → r.saw_transaction_relayed ≡ seen is_transaction hub logs
    → r.saw_bad_transaction ≡ seen is_bad hub logs
    → r.saw_relayed ≡ seen is_relayed hub logs
    → (finish r).executed
      ≡ or_else
          (last_verdict hub logs)
          (by_default (seen is_deployed hub logs) (seen is_relayed hub logs))
unfolding finish
finish-executed hub logs r executed deployed transaction bad relayed =
    ap (λ o. executed_or o (r.saw_transaction_relayed || r.saw_contract_deployed))
      (silent_failure-executed r)
    ∙ executed_or_lem r.outcome.executed r.saw_contract_deployed r.saw_transaction_relayed
        r.saw_bad_transaction r.saw_relayed
        (ap said executed
          ∙ said-last_verdict hub logs
          ∙ ap (λ b. b || seen is_bad hub logs) (sym transaction)
          ∙ ap (λ b. r.saw_transaction_relayed || b) (sym bad))
    ∙ ap (λ o. or_else o (by_default r.saw_contract_deployed r.saw_relayed)) executed
    ∙ ap (λ b. or_else (last_verdict hub logs) (by_default b r.saw_relayed)) deployed
    ∙ ap (λ b. or_else (last_verdict hub logs) (by_default (seen is_deployed hub logs) b)) relayed

or_else-none : (o : Option Bool) → or_else o none ≡ o
or_else-none none = refl
or_else-none (some b) = refl

-- The outcome that the loop comes to.
abbrev SaysExecuted : Hub → List Log → MetaTxOutcome → Type 0
SaysExecuted hub logs outcome =
    (outcome.executed
      ≡ or_else (last_verdict hub logs)
          (by_default (seen is_deployed hub logs) (seen is_relayed hub logs)))
    × (outcome.hub_rejected ≡ seen is_bad hub logs)

read_logs-SaysExecuted :
    (hub : Hub) (hash : ℕ) (logs : List Log) (t : Tracker)
    → SaysExecuted hub logs (finish (read_logs hub hash logs (first_reading t)))
unfolding finish
read_logs-SaysExecuted hub hash logs t =
    let first = first_reading t in
    (
      finish-executed hub logs (read_logs hub hash logs first)
          (read_logs-executed hub hash logs first ∙ or_else-none (last_verdict hub logs))
          (read_logs-flag (λ r. r.saw_contract_deployed) is_deployed hub hash
            (read_kind-deployed hub hash) logs first)
          (read_logs-flag (λ r. r.saw_transaction_relayed) is_transaction hub hash
            (read_kind-transaction hub hash) logs first)
          (read_logs-flag (λ r. r.saw_bad_transaction) is_bad hub hash (read_kind-bad hub hash) logs
            first)
          (read_logs-flag (λ r. r.saw_relayed) is_relayed hub hash (read_kind-relayed hub hash) logs
            first),
      silent_failure-hub_rejected (read_logs hub hash logs first)
          ∙ read_logs-flag (λ r. r.outcome.hub_rejected) is_bad hub hash
              (read_kind-hub_rejected hub hash) logs first,
    )

outcome_of-none : (b : Bool) (r : Reading) → ((outcome_of (b, r)).0 ≡ none) ↔ (b ≡ true)
unfolding outcome_of
outcome_of-none true r = (λ e. refl, λ e. refl)
outcome_of-none false r = (λ e. absurd (cc), λ e. absurd (cc))

-- What readHubEvents says of the logs of a receipt. It panics, and says nothing, exactly if one of
-- them is a TransactionRelayed of a call that failed with an output that decodeRevertReason panics on.
-- Otherwise, executed: what the last TransactionRelayed or BadTransactionSent says, the latter that
-- it was not; with neither, that it was if there is a ContractDeployed, that it was not if there is
-- only a Relayed, and nothing with none of these. Rejected by the hub: exactly if there is a
-- BadTransactionSent.
pub read_hub_events-executed :
    (hub : Hub) (hash : ℕ) (logs : List Log) (t : Tracker)
    → let outcome = (read_hub_events hub hash (some logs) t).0 in
      ((outcome ≡ none) ↔ Hostile hub logs)
      × (¬ Hostile hub logs
          → (o : MetaTxOutcome) × (outcome ≡ some o)
            × (o.executed
                ≡ or_else
                    (last_verdict hub logs)
                    (by_default (seen is_deployed hub logs) (seen is_relayed hub logs)))
            × (o.hub_rejected ≡ seen is_bad hub logs))
read_hub_events-executed hub hash logs t =
    let e = ap (λ x. x.0) (read_hub_events-loop hub hash logs t) in
    let r = read_logs hub hash (before_panic hub logs) (first_reading t) in
    let ends = outcome_of-none (panics hub logs) r in
    let hostile = panics_iff hub logs in
    (
      (λ n. hostile.0 (ends.0 (sym e ∙ n)), λ h. e ∙ ends.1 (hostile.1 h)),
      λ calm.
          let s = read_logs-SaysExecuted hub hash logs t in
          (
            finish (read_logs hub hash logs (first_reading t)),
            ap (λ x. x.0) (read_hub_events-calm hub hash logs t (calm-panics hub logs calm)),
            s.0,
            s.1,
          ),
    )
