-- ===== src/Service/Outcome.antt =====
-- service/settle.go, the first half: how a metatx ended, read from the events of the hub in its
-- receipt. The text of a name is a constructor, and of a revert its output is kept,
-- of which decodeRevertReason makes the text, or panics.
pub mod Panics
pub mod Seen
pub mod Verdict
pub mod Executed
pub mod Refused
use gas_management.Base.{
  ℕ, zero, suc, ◌-◌, Bool, true, false, not, ◌&&◌, ◌||◌, Option, none, some, List, [], ◌∷◌, ◌++◌,
  Key, ◌==◌, if◌then◌else◌,
}
use gas_management.Service.HubLog.{
  Log, Hub, CodeName, Kind, deployed_log, transaction_log, bad_log, relayed_log, gas_log, other_log,
  kind_of, transaction_relayed_failed, bad_transaction_error_code, error_code_name, loop,
}
use gas_management.Service.Tracker.{Tracker}
use gas_management.Service.Tracker.Chains.{invalidate_nonce}

pub data EventName : Type 0 where
  contract_deployed_event : EventName
  transaction_relayed_event : EventName
  bad_transaction_sent_event : EventName
  relayed_event : EventName
  gas_used_by_transaction_event : EventName

pub data Output : Type 0 where
  revert_reason : Key → Output
  constructor_failed : Output

pub record MetaTxOutcome : Type 0 where
  pub events : List EventName
  pub executed : Option Bool
  pub error_code : Option ℕ
  pub error_name : Option CodeName
  pub output : Option Output
  pub deployed_address : Option Key
  pub hub_rejected : Bool

abbrev pub no_outcome : MetaTxOutcome
no_outcome = record {
  events = [];
  executed = none;
  error_code = none;
  error_name = none;
  output = none;
  deployed_address = none;
  hub_rejected = false;
}

-- The line of the log on a metatx that the hub refused: its hash, its sender and the code.
pub data Warning : Type 0 where
  relay_hub_rejected : ℕ → Key → ℕ → CodeName → Warning

-- The local variables of the loop, and what it writes.
pub record Reading : Type 0 where
  pub outcome : MetaTxOutcome
  pub saw_contract_deployed : Bool
  pub saw_transaction_relayed : Bool
  pub saw_bad_transaction : Bool
  pub saw_relayed : Bool
  pub tracker : Tracker
  pub log : List Warning

abbrev pub heard : EventName → MetaTxOutcome → MetaTxOutcome
heard name outcome = record outcome { events = outcome.events ++ name ∷ [] }

abbrev pub with_execution : Bool × Key → MetaTxOutcome → MetaTxOutcome
with_execution (true, output) outcome = record outcome { executed = some true }
with_execution (false, output) outcome = record outcome {
  executed = some false;
  output = some (revert_reason output);
}

abbrev pub with_rejection : ℕ → MetaTxOutcome → MetaTxOutcome
with_rejection code outcome = record outcome {
  executed = some false;
  error_code = some code;
  error_name = some (error_code_name code);
  hub_rejected = true;
}

-- The body of the loop, for a log of each kind, where it does not panic. A panic leaves the tracker and the
-- log as they were before the body.
unfoldable pub read_kind : Hub → ℕ → Kind → Key → Reading → Reading
read_kind hub hash deployed_log bytes r = record r {
  saw_contract_deployed = true;
  outcome = record (heard contract_deployed_event r.outcome) {
    deployed_address = some (hub.address_hex (hub.bytes_to_address bytes));
  };
}
read_kind hub hash transaction_log bytes r = record r {
  saw_transaction_relayed = true;
  outcome =
      with_execution (transaction_relayed_failed hub bytes)
        (heard transaction_relayed_event r.outcome);
}
read_kind hub hash bad_log bytes r =
    let code = (bad_transaction_error_code hub bytes).0 in
    let bad_sender = hub.address_hex (bad_transaction_error_code hub bytes).1 in
    record r {
      saw_bad_transaction = true;
      outcome = with_rejection code (heard bad_transaction_sent_event r.outcome);
      tracker = invalidate_nonce r.tracker bad_sender;
      log = r.log ++ relay_hub_rejected hash bad_sender code (error_code_name code) ∷ [];
    }
read_kind hub hash relayed_log bytes r = record r {
  saw_relayed = true;
  outcome = heard relayed_event r.outcome;
}
read_kind hub hash gas_log bytes r = record r {
  outcome = heard gas_used_by_transaction_event r.outcome;
}
read_kind hub hash other_log bytes r = r

-- The bodies for these logs, one after the other.
unfoldable pub read_logs : Hub → ℕ → List Log → Reading → Reading
read_logs hub hash [] r = r
read_logs hub hash (l ∷ logs) r =
    read_logs hub hash logs (read_kind hub hash (kind_of hub l) l.bytes r)

-- A deployment whose constructor failed leaves no event but Relayed.
unfoldable pub silent_failure : Reading → MetaTxOutcome
silent_failure r =
    if r.saw_relayed
      && (not r.saw_contract_deployed
          && (not r.saw_transaction_relayed && not r.saw_bad_transaction))
    then record r.outcome { executed = some false; output = some constructor_failed }
    else r.outcome

executed_or : Option Bool → Bool → Option Bool
executed_or none saw = if saw then some true else none
executed_or (some b) saw = some b

unfoldable pub finish : Reading → MetaTxOutcome
unfolding executed_or
finish r = record (silent_failure r) {
  executed =
      executed_or (silent_failure r).executed
        (r.saw_transaction_relayed || r.saw_contract_deployed);
}

abbrev pub first_reading : Tracker → Reading
first_reading t = record {
  outcome = no_outcome;
  saw_contract_deployed = false;
  saw_transaction_relayed = false;
  saw_bad_transaction = false;
  saw_relayed = false;
  tracker = t;
  log = [];
}

abbrev pub read_log : Hub → ℕ → Log → Reading → Reading
read_log hub hash l r = read_kind hub hash (kind_of hub l) l.bytes r

unfoldable pub outcome_of : Bool × Reading → Option MetaTxOutcome × Tracker × List Warning
outcome_of (true, r) = (none, r.tracker, r.log)
outcome_of (false, r) = (some (finish r), r.tracker, r.log)

-- `readHubEvents`: the outcome, or none for a panic, the tracker after it, and the lines of the log.
unfoldable pub read_hub_events :
    Hub → ℕ → Option (List Log) → Tracker → Option MetaTxOutcome × Tracker × List Warning
read_hub_events hub hash none t = (some no_outcome, t, [])
read_hub_events hub hash (some logs) t =
    outcome_of (loop hub (read_log hub hash) logs (first_reading t))
