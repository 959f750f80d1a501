-- ===== src/Service/Result/Receipt.antt =====
-- GetTransactionReceipt of service/relaySignerService.go: the receipt of the envelope, with the failure
-- of the metatx written into it.
use gas_management.Base.{
  ℕ, Bool, true, false, Option, none, some, List, [], ◌∷◌, Key, if◌then◌else◌,
}
use gas_management.Service.HubLog.{
  Log, Hub, Kind, deployed_log, transaction_log, bad_log, relayed_log, gas_log, other_log, kind_of,
  transaction_relayed_failed, bad_transaction_error_code, error_code_name, loop,
}
use gas_management.Service.Result.{
  RevertText, reverted, bad_transaction_sent, no_code_created, TxReceipt, ReceiptRead,
  no_connection, receipt_failed, receipt_is, Answer, error_response, response, Flags, no_flags,
  is_silent, Effects, refuse,
}

-- A receipt as it was when a failure was seen, with the reason of the failure beside it.
pub record Reverted : Type 0 where
  pub receipt : TxReceipt
  pub revert_reason : RevertText

-- `receipt` is the object that the loop writes to, `reverted` the last copy made of it.
pub record ReceiptReading : Type 0 where
  pub receipt : TxReceipt
  pub reverted : Option Reverted
  pub flags : Flags
  pub effects : Effects

abbrev pub fail_with : RevertText → ReceiptReading → ReceiptReading
fail_with text q =
    let failed : TxReceipt = record q.receipt { status = 0 } in
    record q {
      receipt = failed;
      reverted = some (record { receipt = failed; revert_reason = text });
    }

abbrev pub with_failure : Bool × Key → ReceiptReading → ReceiptReading
with_failure (true, output) q = q
with_failure (false, output) q = fail_with (reverted output) q

-- The body of the loop, where it does not panic.
unfoldable pub receipt_kind : Hub → ℕ → Kind → Key → ReceiptReading → ReceiptReading
receipt_kind hub hash deployed_log bytes q = record q {
  flags = record q.flags { deployed = true };
  receipt = record q.receipt { contract_address = hub.bytes_to_address bytes };
}
receipt_kind hub hash transaction_log bytes q =
    with_failure (transaction_relayed_failed hub bytes)
      (record q { flags = record q.flags { transaction = true } })
receipt_kind hub hash bad_log bytes q =
    fail_with (bad_transaction_sent (error_code_name (bad_transaction_error_code hub bytes).0))
      (record q {
        flags = record q.flags { bad = true };
        effects = refuse hub hash bytes q.effects;
      })
receipt_kind hub hash relayed_log bytes q = record q { flags = record q.flags { relayed = true } }
receipt_kind hub hash gas_log bytes q = q
receipt_kind hub hash other_log bytes q = q

-- The bodies for these logs, one after the other.
unfoldable pub receipt_logs : Hub → ℕ → List Log → ReceiptReading → ReceiptReading
receipt_logs hub hash [] q = q
receipt_logs hub hash (l ∷ logs) q =
    receipt_logs hub hash logs (receipt_kind hub hash (kind_of hub l) l.bytes q)

unfoldable pub receipt_end : ReceiptReading → ReceiptReading
receipt_end q = if is_silent q.flags then fail_with no_code_created q else q

-- What is answered: no receipt, the receipt, or the copy of it with the reason.
pub record ReceiptAnswer : Type 0 where
  pub receipt : Option TxReceipt
  pub revert_reason : Option RevertText

unfoldable pub shown : TxReceipt → Option Reverted → ReceiptAnswer
shown receipt none = record { receipt = some receipt; revert_reason = none }
shown receipt (some r) = record { receipt = some r.receipt; revert_reason = some r.revert_reason }

abbrev pub receipt_log : Hub → ℕ → Log → ReceiptReading → ReceiptReading
receipt_log hub hash l q = receipt_kind hub hash (kind_of hub l) l.bytes q

abbrev pub first_receipt_reading : TxReceipt → Effects → ReceiptReading
first_receipt_reading receipt e = record {
  receipt = receipt;
  reverted = none;
  flags = no_flags;
  effects = e;
}

-- The answer after the loop, or none for a panic.
unfoldable pub receipt_of_loop : Bool × ReceiptReading → Option (Answer ReceiptAnswer) × Effects
receipt_of_loop (true, q) = (none, q.effects)
receipt_of_loop (false, q) =
    let r = receipt_end q in (some (response (shown r.receipt r.reverted)), r.effects)

abbrev pub no_receipt : ReceiptAnswer
no_receipt = record { receipt = none; revert_reason = none }

-- `GetTransactionReceipt`; none is a panic. Where the node fails to give the receipt, the error is
-- written to the log alone, and the answer is that there is none.
unfoldable pub get_transaction_receipt :
    Hub → ℕ → ReceiptRead → Effects → Option (Answer ReceiptAnswer) × Effects
get_transaction_receipt hub hash (no_connection cause) e = (some (error_response cause), e)
get_transaction_receipt hub hash (receipt_failed cause) e = (some (response no_receipt), e)
get_transaction_receipt hub hash (receipt_is none) e = (some (response no_receipt), e)
get_transaction_receipt hub hash (receipt_is (some receipt)) e =
    receipt_of_loop (loop hub (receipt_log hub hash) receipt.logs (first_receipt_reading receipt e))
