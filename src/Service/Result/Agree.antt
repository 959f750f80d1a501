-- ===== src/Service/Result/Agree.antt =====
-- The three readings of the events of the hub, in step.
use gas_management.Base.{
  ℕ, ◌≡◌, Bool, true, false, not, Option, none, some, List, [], ◌∷◌, Key, arith, if◌then◌else◌,
}
use gas_management.Service.HubLog.{
  Log, Hub, Kind, deployed_log, transaction_log, bad_log, relayed_log, gas_log, other_log, kind_of,
  transaction_relayed_failed,
}
use gas_management.Service.Outcome.{
  Reading, heard, transaction_relayed_event, with_execution, read_kind, read_logs,
}
use gas_management.Service.Result.{
  RevertText, ResultReading, with_result, refuse, result_kind, result_logs,
}
use gas_management.Service.Result.Receipt.{
  Reverted, ReceiptReading, with_failure, receipt_kind, receipt_logs,
}

abbrev pub or_true : Option Bool → Bool
or_true none = true
or_true (some b) = b

abbrev pub key_or : Key → Option Key → Key
key_or k none = k
key_or k (some other) = other

abbrev pub reason_of : Option Reverted → Option RevertText
reason_of none = none
reason_of (some r) = some r.revert_reason

abbrev pub status_of : ℕ → Option Reverted → ℕ
status_of status none = status
status_of status (some r) = r.receipt.status

abbrev pub is_there : Option RevertText → Bool
is_there none = false
is_there (some text) = true

module _ (hub : Hub) (hash status : ℕ) (address : Key) where
  -- What the readings have in common: `r` of readHubEvents, `g` of GetMetaTxResult and `q` of
  -- GetTransactionReceipt, of a receipt with this status and this address.
  pub record Agree (r : Reading) (g : ResultReading) (q : ReceiptReading) : Type 0 where
    pub deployed :
        (g.flags.deployed ≡ r.saw_contract_deployed) × (q.flags.deployed ≡ g.flags.deployed)
    pub transaction :
        (g.flags.transaction ≡ r.saw_transaction_relayed)
        × (q.flags.transaction ≡ g.flags.transaction)
    pub bad : (g.flags.bad ≡ r.saw_bad_transaction) × (q.flags.bad ≡ g.flags.bad)
    pub relayed : (g.flags.relayed ≡ r.saw_relayed) × (q.flags.relayed ≡ g.flags.relayed)
    pub tracker : (g.effects.tracker ≡ r.tracker) × (q.effects.tracker ≡ g.effects.tracker)
    pub log : (g.effects.log ≡ r.log) × (q.effects.log ≡ g.effects.log)
    pub executed : g.out.executed ≡ or_true r.outcome.executed
    pub error_code : g.out.error_code ≡ r.outcome.error_name
    pub address_of : g.out.deployed_address ≡ r.outcome.deployed_address
    pub contract :
        hub.address_hex q.receipt.contract_address
        ≡ key_or (hub.address_hex address) g.out.deployed_address
    pub reason : reason_of q.reverted ≡ g.out.revert_reason
    pub success : g.out.success ≡ not (is_there g.out.revert_reason)
    pub failed : g.out.executed ≡ false → g.out.success ≡ false
    pub status_now : status_of status q.reverted ≡ (if g.out.success then status else 0)
    pub status_kept : q.reverted ≡ none → q.receipt.status ≡ status

  transaction-Agree :
      (v : Bool × Key) (r : Reading) (g : ResultReading) (q : ReceiptReading)
      → Agree r g q
      → Agree
          (record r {
            saw_transaction_relayed = true;
            outcome = with_execution v (heard transaction_relayed_event r.outcome);
          })
          (record g { flags = record g.flags { transaction = true }; out = with_result v g.out })
          (with_failure v (record q { flags = record q.flags { transaction = true } }))
  transaction-Agree (true, output) r g q a = ground arith
  transaction-Agree (false, output) r g q a = ground arith

  kind-Agree :
      (k : Kind) (bytes : Key) (r : Reading) (g : ResultReading) (q : ReceiptReading)
      → Agree r g q
      → Agree
          (read_kind hub hash k bytes r)
          (result_kind hub hash k bytes g)
          (receipt_kind hub hash k bytes q)
  unfolding read_kind result_kind receipt_kind refuse
  kind-Agree deployed_log bytes r g q a = ground arith
  kind-Agree transaction_log bytes r g q a =
      transaction-Agree (transaction_relayed_failed hub bytes) r g q a
  kind-Agree bad_log bytes r g q a = ground arith
  kind-Agree relayed_log bytes r g q a = ground arith
  kind-Agree gas_log bytes r g q a = ground arith
  kind-Agree other_log bytes r g q a = ground arith

  pub logs-Agree :
      (logs : List Log) (r : Reading) (g : ResultReading) (q : ReceiptReading)
      → Agree r g q
      → Agree
          (read_logs hub hash logs r)
          (result_logs hub hash logs g)
          (receipt_logs hub hash logs q)
  unfolding read_logs result_logs receipt_logs
  logs-Agree [] r g q a = a
  logs-Agree (l ∷ logs) r g q a =
      logs-Agree logs (read_kind hub hash (kind_of hub l) l.bytes r)
        (result_kind hub hash (kind_of hub l) l.bytes g)
        (receipt_kind hub hash (kind_of hub l) l.bytes q)
        (kind-Agree (kind_of hub l) l.bytes r g q a)
