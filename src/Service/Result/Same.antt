-- ===== src/Service/Result/Same.antt =====
-- readHubEvents, GetMetaTxResult and GetTransactionReceipt side by side.
use gas_management.Base.{
  ℕ, ◌≡◌, ◌↔◌, ◌⊎◌, inl, inr, refl, ap, Bool, true, false, not, Option, none, some, List, [], Key,
  arith, if◌then◌else◌,
}
use gas_management.Service.Tracker.{Tracker}
use gas_management.Service.HubLog.{Log, Hub, loop}
use gas_management.Service.Outcome.{
  MetaTxOutcome, Warning, Reading, read_logs, first_reading, silent_failure, finish, outcome_of,
  read_hub_events,
}
use gas_management.Service.Result.{
  TxReceipt, receipt_is, Answer, response, Effects, MetaTxResult, ResultReading, result_log,
  first_result_reading, result_logs, result_end, result_of_loop, get_meta_tx_result,
}
use gas_management.Service.Result.Receipt.{
  Reverted, ReceiptReading, receipt_log, first_receipt_reading, receipt_logs, receipt_end,
  receipt_of_loop, ReceiptAnswer, shown, get_transaction_receipt,
}
use gas_management.Service.Result.Agree.{Agree, or_true, key_or, is_there, logs-Agree}
use gas_management.Service.Outcome.Panics.{
  Hostile, panics, before_panic, loop-before_panic, read_log-loop,
}
use gas_management.Service.Outcome.Executed.{read_hub_events-executed}

-- The outcome, the result and the receipt that is shown say the same of a receipt with this status
-- and this address.
pub record Same (hub : Hub) (status : ℕ) (address : Key) (o : MetaTxOutcome) (g : MetaTxResult)
    (q : ReceiptAnswer) : Type 0 where
  pub executed : g.executed ≡ or_true o.executed
  pub error_code : g.error_code ≡ o.error_name
  pub address_of : g.deployed_address ≡ o.deployed_address
  pub reason : q.revert_reason ≡ g.revert_reason
  pub success : g.success ≡ not (is_there g.revert_reason)
  pub failed : g.executed ≡ false → g.success ≡ false
  pub shows :
      (receipt : TxReceipt) × (q.receipt ≡ some receipt)
      × (receipt.status ≡ (if g.success then status else 0))
      × (g.success ≡ true
          → hub.address_hex receipt.contract_address
            ≡ key_or (hub.address_hex address) g.deployed_address)

module _ (hub : Hub) (hash status : ℕ) (address : Key) (r : Reading) (g : ResultReading)
    (q : ReceiptReading) (a : Agree hub hash status address r g q) where
  executed_end : (result_end g).executed ≡ or_true (finish r).executed
  unfolding result_end finish silent_failure
  executed_end = ground arith

  error_code_end : (result_end g).error_code ≡ (finish r).error_name
  unfolding result_end finish silent_failure
  error_code_end = ground arith

  address_end : (result_end g).deployed_address ≡ (finish r).deployed_address
  unfolding result_end finish silent_failure
  address_end = ground arith

  reason_end :
      (shown (receipt_end q).receipt (receipt_end q).reverted).revert_reason
      ≡ (result_end g).revert_reason
  unfolding result_end receipt_end shown
  reason_end = ground arith

  success_end : (result_end g).success ≡ not (is_there (result_end g).revert_reason)
  unfolding result_end
  success_end = ground arith

  failed_end : (result_end g).executed ≡ false → (result_end g).success ≡ false
  unfolding result_end
  failed_end = ground arith

  -- The receipt that is shown, of the copy if there is one.
  shown_receipt : TxReceipt → Option Reverted → TxReceipt
  shown_receipt receipt none = receipt
  shown_receipt receipt (some r) = r.receipt

  shown_end :
      (shown (receipt_end q).receipt (receipt_end q).reverted).receipt
      ≡ some (shown_receipt (receipt_end q).receipt (receipt_end q).reverted)
  unfolding shown shown_receipt receipt_end
  shown_end = ground arith

  status_end :
      (shown_receipt (receipt_end q).receipt (receipt_end q).reverted).status
      ≡ (if (result_end g).success then status else 0)
  unfolding shown_receipt receipt_end result_end
  status_end = ground arith

  contract_end :
      (result_end g).success ≡ true
      → hub.address_hex
          (shown_receipt (receipt_end q).receipt (receipt_end q).reverted).contract_address
        ≡ key_or (hub.address_hex address) (result_end g).deployed_address
  unfolding shown_receipt receipt_end result_end
  contract_end = ground arith

  Agree-Same :
      Same hub status address
        (finish r)
        (result_end g)
        (shown (receipt_end q).receipt (receipt_end q).reverted)
  Agree-Same = record {
    executed = executed_end;
    error_code = error_code_end;
    address_of = address_end;
    reason = reason_end;
    success = success_end;
    failed = failed_end;
    shows = (
      shown_receipt (receipt_end q).receipt (receipt_end q).reverted,
      shown_end,
      status_end,
      contract_end,
    );
  }

  effects_end :
      (g.effects ≡ record { tracker = r.tracker; log = r.log })
      × ((receipt_end q).effects ≡ record { tracker = r.tracker; log = r.log })
  unfolding receipt_end
  effects_end = ground arith

abbrev pub Read : Type 0
Read = Option MetaTxOutcome × Tracker × List Warning

abbrev pub effects_after : Read → Effects
effects_after x = record { tracker = x.1; log = x.2 }

-- What readHubEvents makes of a receipt, beside what is answered of it: all three panic, or they say
-- the same. The effects are the same either way.
abbrev pub AllSay :
    Hub
    → TxReceipt
    → Read
    → Option (Answer MetaTxResult) × Effects
    → Option (Answer ReceiptAnswer) × Effects
    → Type 0
AllSay hub receipt x result shown_as =
    let after = effects_after x in
    ((x.0 ≡ none) × (result ≡ (none, after)) × (shown_as ≡ (none, after)))
    ⊎ ((o : MetaTxOutcome) × (g : MetaTxResult) × (q : ReceiptAnswer) × (x.0 ≡ some o)
        × (result ≡ (some (response g), after))
        × (shown_as ≡ (some (response q), after))
        × Same hub receipt.status receipt.contract_address o g q)

loops-AllSay :
    (hub : Hub) (hash : ℕ) (receipt : TxReceipt) (r : Reading) (g : ResultReading)
    (q : ReceiptReading) (panic : Bool)
    → Agree hub hash receipt.status receipt.contract_address r g q
    → AllSay hub receipt
        (outcome_of (panic, r))
        (result_of_loop (panic, g))
        (receipt_of_loop (panic, q))
unfolding outcome_of result_of_loop receipt_of_loop
loops-AllSay hub hash receipt r g q true a = inl (refl, ground arith, ground arith)
loops-AllSay hub hash receipt r g q false a =
    let (eg, eq) = effects_end hub hash receipt.status receipt.contract_address r g q a in
    inr (
      finish r,
      result_end g,
      shown (receipt_end q).receipt (receipt_end q).reverted,
      refl,
      ap (λ (e : Effects). (some (response (result_end g)), e)) eg,
      ap
          (λ (e : Effects).
            (some (response (shown (receipt_end q).receipt (receipt_end q).reverted)), e))
          eq,
      Agree-Same hub hash receipt.status receipt.contract_address r g q a,
    )

result_log-loop :
    (hub : Hub) (hash : ℕ) (logs : List Log) (g : ResultReading)
    → loop hub (result_log hub hash) logs g
      ≡ (panics hub logs, result_logs hub hash (before_panic hub logs) g)
unfolding result_logs
result_log-loop hub hash =
    loop-before_panic hub (result_log hub hash) (result_logs hub hash) (λ g. refl)
      (λ l logs g. refl)

receipt_log-loop :
    (hub : Hub) (hash : ℕ) (logs : List Log) (q : ReceiptReading)
    → loop hub (receipt_log hub hash) logs q
      ≡ (panics hub logs, receipt_logs hub hash (before_panic hub logs) q)
unfolding receipt_logs
receipt_log-loop hub hash =
    loop-before_panic hub (receipt_log hub hash) (receipt_logs hub hash) (λ q. refl)
      (λ l logs q. refl)

-- Of the logs of one receipt, which the node gives to each of them at the same state of the service,
-- readHubEvents, GetMetaTxResult and GetTransactionReceipt all panic, or say the same. GetMetaTxResult
-- says that the metatx was executed where readHubEvents says so or says nothing; the names of the code
-- and the address of a deployment are equal; the receipt is shown with the reason that
-- GetMetaTxResult gives, which it gives exactly for what it calls no success, and it calls no success
-- whatever it says was not executed; the status shown is the one of the receipt for a success, and
-- otherwise 0; and for a success the receipt names the contract that was deployed. All three drop the
-- same chains and write the same warnings, also where they panic, which they do exactly if a log is a
-- TransactionRelayed of a call that failed with an output that decodeRevertReason panics on.
pub readings_agree :
    (hub : Hub) (hash : ℕ) (receipt : TxReceipt) (t : Tracker)
    → let before : Effects = record { tracker = t; log = [] } in
      let read = read_hub_events hub hash (some receipt.logs) t in
      AllSay hub receipt read
        (get_meta_tx_result hub hash (receipt_is (some receipt)) before)
        (get_transaction_receipt hub hash (receipt_is (some receipt)) before)
      × ((read.0 ≡ none) ↔ Hostile hub receipt.logs)
unfolding read_hub_events get_meta_tx_result get_transaction_receipt
readings_agree hub hash receipt t =
    let before : Effects = record { tracker = t; log = [] } in
    let first_g = first_result_reading before in
    let first_q = first_receipt_reading receipt before in
    let logs = before_panic hub receipt.logs in
    (
      rw
          (
            read_log-loop hub hash receipt.logs (first_reading t),
            result_log-loop hub hash receipt.logs first_g,
            receipt_log-loop hub hash receipt.logs first_q,
          )
          (loops-AllSay hub hash receipt (read_logs hub hash logs (first_reading t))
            (result_logs hub hash logs first_g) (receipt_logs hub hash logs first_q)
            (panics hub receipt.logs)
            (logs-Agree hub hash receipt.status receipt.contract_address logs (first_reading t)
              first_g first_q (ground arith))),
      (read_hub_events-executed hub hash receipt.logs t).0,
    )
