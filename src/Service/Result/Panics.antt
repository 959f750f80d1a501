-- ===== src/Service/Result/Panics.antt =====
-- The receipts at which GetMetaTxResult and GetTransactionReceipt panic.
use gas_management.Base.{ℕ, ◌≡◌, ◌↔◌, refl, Bool, true, false, none, some}
use gas_management.Service.HubLog.{Hub, loop}
use gas_management.Service.Outcome.Panics.{Hostile, loop-Hostile}
use gas_management.Service.Result.{
  ReceiptRead, no_connection, receipt_failed, receipt_is, Effects, ResultReading, result_log,
  first_result_reading, result_of_loop, get_meta_tx_result,
}
use gas_management.Service.Result.Receipt.{
  ReceiptReading, receipt_log, first_receipt_reading, receipt_of_loop, get_transaction_receipt,
}

-- The node gives a receipt with a TransactionRelayed of a call that failed, whose output
-- decodeRevertReason panics on.
abbrev pub HostileRead : Hub → ReceiptRead → Type 0
HostileRead hub (receipt_is (some receipt)) = Hostile hub receipt.logs
HostileRead hub read = ⊥

result_of_loop-none : (x : Bool × ResultReading) → ((result_of_loop x).0 ≡ none) ↔ (x.0 ≡ true)
unfolding result_of_loop
result_of_loop-none (true, g) = (λ e. refl, λ e. refl)
result_of_loop-none (false, g) = (λ e. absurd (cc), λ e. absurd (cc))

receipt_of_loop-none : (x : Bool × ReceiptReading) → ((receipt_of_loop x).0 ≡ none) ↔ (x.0 ≡ true)
unfolding receipt_of_loop
receipt_of_loop-none (true, g) = (λ e. refl, λ e. refl)
receipt_of_loop-none (false, g) = (λ e. absurd (cc), λ e. absurd (cc))

pub receipt-none :
    (hub : Hub) (hash : ℕ) (read : ReceiptRead) (e : Effects)
    → ((get_transaction_receipt hub hash read e).0 ≡ none) ↔ HostileRead hub read
unfolding get_transaction_receipt
receipt-none hub hash (no_connection cause) e = (λ n. absurd (cc), λ n. absurd n)
receipt-none hub hash (receipt_failed cause) e = (λ n. absurd (cc), λ n. absurd n)
receipt-none hub hash (receipt_is none) e = (λ n. absurd (cc), λ n. absurd n)
receipt-none hub hash (receipt_is (some receipt)) e =
    let first = first_receipt_reading receipt e in
    let x = loop hub (receipt_log hub hash) receipt.logs first in
    let r = receipt_of_loop-none x in
    let p = loop-Hostile hub (receipt_log hub hash) receipt.logs first in
    (λ n. p.0 (r.0 n), λ n. r.1 (p.1 n))

pub result-none :
    (hub : Hub) (hash : ℕ) (read : ReceiptRead) (e : Effects)
    → ((get_meta_tx_result hub hash read e).0 ≡ none) ↔ HostileRead hub read
unfolding get_meta_tx_result
result-none hub hash (no_connection cause) e = (λ n. absurd (cc), λ n. absurd n)
result-none hub hash (receipt_failed cause) e = (λ n. absurd (cc), λ n. absurd n)
result-none hub hash (receipt_is none) e = (λ n. absurd (cc), λ n. absurd n)
result-none hub hash (receipt_is (some receipt)) e =
    let x = loop hub (result_log hub hash) receipt.logs (first_result_reading e) in
    let r = result_of_loop-none x in
    let p = loop-Hostile hub (result_log hub hash) receipt.logs (first_result_reading e) in
    (λ n. p.0 (r.0 n), λ n. r.1 (p.1 n))
