-- ===== src/Service/Result.antt =====
-- GetMetaTxResult and GetTransactionReceipt of service/relaySignerService.go: how a metatx ended, for
-- a JSON-RPC client. Both read the events of the hub again, each for its own answer. A receipt is
-- taken to be one that encoding/json can write.
pub mod Receipt
pub mod Agree
pub mod Panics
pub mod Same
use gas_management.Base.{
  ℕ, Bool, true, false, not, ◌&&◌, Option, none, some, List, [], ◌∷◌, ◌++◌, Key, if◌then◌else◌,
}
use gas_management.Service.Rejection.{Cause}
use gas_management.Service.Tracker.{Tracker}
use gas_management.Service.Tracker.Chains.{invalidate_nonce}
use gas_management.Service.HubLog.{
  Log, Hub, CodeName, Kind, deployed_log, transaction_log, bad_log, relayed_log, gas_log, other_log,
  kind_of, transaction_relayed_failed, bad_transaction_error_code, error_code_name, loop,
}
use gas_management.Service.Outcome.{Warning, relay_hub_rejected}

-- What the answer says of a failure: the text of a revert, which decodeRevertReason makes of the
-- output, or panics, the name of the code, or that the constructor failed.
pub data RevertText : Type 0 where
  reverted : Key → RevertText
  bad_transaction_sent : CodeName → RevertText
  no_code_created : RevertText

-- Of a receipt: its status, the address of its contract, and its logs.
pub record TxReceipt : Type 0 where
  pub status : ℕ
  pub contract_address : Key
  pub logs : List Log

-- What the node answers.
pub data ReceiptRead : Type 0 where
  no_connection : Cause → ReceiptRead
  receipt_failed : Cause → ReceiptRead
  receipt_is : Option TxReceipt → ReceiptRead

pub data Answer (A : Type 0) : Type 0 where
  error_response : Cause → Answer A
  response : A → Answer A

-- The variables of the switch.
pub record Flags : Type 0 where
  pub deployed : Bool
  pub transaction : Bool
  pub bad : Bool
  pub relayed : Bool

abbrev pub no_flags : Flags
no_flags = record { deployed = false; transaction = false; bad = false; relayed = false }

abbrev pub is_silent : Flags → Bool
is_silent f = f.relayed && (not f.deployed && (not f.transaction && not f.bad))

-- What the loops write beside their answer.
pub record Effects : Type 0 where
  pub tracker : Tracker
  pub log : List Warning

unfoldable pub refuse : Hub → ℕ → Key → Effects → Effects
refuse hub hash bytes e =
    let code = (bad_transaction_error_code hub bytes).0 in
    let bad_sender = hub.address_hex (bad_transaction_error_code hub bytes).1 in
    record {
      tracker = invalidate_nonce e.tracker bad_sender;
      log = e.log ++ relay_hub_rejected hash bad_sender code (error_code_name code) ∷ [];
    }

pub record MetaTxResult : Type 0 where
  pub mined : Bool
  pub success : Bool
  pub executed : Bool
  pub error_code : Option CodeName
  pub revert_reason : Option RevertText
  pub deployed_address : Option Key

abbrev pub first_result : Bool → MetaTxResult
first_result mined = record {
  mined = mined;
  success = true;
  executed = true;
  error_code = none;
  revert_reason = none;
  deployed_address = none;
}

pub record ResultReading : Type 0 where
  pub out : MetaTxResult
  pub flags : Flags
  pub effects : Effects

abbrev pub with_result : Bool × Key → MetaTxResult → MetaTxResult
with_result (true, output) out = record out { executed = true }
with_result (false, output) out = record out {
  executed = false;
  success = false;
  revert_reason = some (reverted output);
}

-- The body of the loop of GetMetaTxResult, where it does not panic.
unfoldable pub result_kind : Hub → ℕ → Kind → Key → ResultReading → ResultReading
result_kind hub hash deployed_log bytes g = record g {
  flags = record g.flags { deployed = true };
  out = record g.out { deployed_address = some (hub.address_hex (hub.bytes_to_address bytes)) };
}
result_kind hub hash transaction_log bytes g = record g {
  flags = record g.flags { transaction = true };
  out = with_result (transaction_relayed_failed hub bytes) g.out;
}
result_kind hub hash bad_log bytes g =
    let name = error_code_name (bad_transaction_error_code hub bytes).0 in
    record g {
      flags = record g.flags { bad = true };
      effects = refuse hub hash bytes g.effects;
      out = record g.out {
        success = false;
        executed = false;
        error_code = some name;
        revert_reason = some (bad_transaction_sent name);
      };
    }
result_kind hub hash relayed_log bytes g = record g { flags = record g.flags { relayed = true } }
result_kind hub hash gas_log bytes g = g
result_kind hub hash other_log bytes g = g

-- The bodies for these logs, one after the other.
unfoldable pub result_logs : Hub → ℕ → List Log → ResultReading → ResultReading
result_logs hub hash [] g = g
result_logs hub hash (l ∷ logs) g =
    result_logs hub hash logs (result_kind hub hash (kind_of hub l) l.bytes g)

unfoldable pub result_end : ResultReading → MetaTxResult
result_end g =
    if is_silent g.flags
    then record g.out { success = false; executed = false; revert_reason = some no_code_created }
    else g.out

abbrev pub result_log : Hub → ℕ → Log → ResultReading → ResultReading
result_log hub hash l g = result_kind hub hash (kind_of hub l) l.bytes g

abbrev pub first_result_reading : Effects → ResultReading
first_result_reading e = record { out = first_result true; flags = no_flags; effects = e }

-- The answer after the loop, or none for a panic.
unfoldable pub result_of_loop : Bool × ResultReading → Option (Answer MetaTxResult) × Effects
result_of_loop (true, g) = (none, g.effects)
result_of_loop (false, g) = (some (response (result_end g)), g.effects)

-- `GetMetaTxResult`; none is a panic.
unfoldable pub get_meta_tx_result :
    Hub → ℕ → ReceiptRead → Effects → Option (Answer MetaTxResult) × Effects
get_meta_tx_result hub hash (no_connection cause) e = (some (error_response cause), e)
get_meta_tx_result hub hash (receipt_failed cause) e = (some (error_response cause), e)
get_meta_tx_result hub hash (receipt_is none) e = (some (response (first_result false)), e)
get_meta_tx_result hub hash (receipt_is (some receipt)) e =
    result_of_loop (loop hub (result_log hub hash) receipt.logs (first_result_reading e))
