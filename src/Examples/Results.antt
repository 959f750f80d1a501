-- ===== src/Examples/Results.antt =====
-- What is said of the receipt of a refused metatx, and of outputs that reverted.
use gas_management.Base.{◌-◌, ◌≤◌, ◌≡◌, ◌↔◌, refl, some, none, [], ◌∷◌, length, take, arith}
use gas_management.Base.Int.{u64_mod}
use gas_management.Examples.Receipts.{hub, refusal, counted, hostile_output}
use gas_management.Service.Outcome.{read_hub_events}
use gas_management.Service.Outcome.Panics.{Hostile}
use gas_management.Service.MetaTx.{set_bytes}
use gas_management.Service.MetaTx.Suffix.{word}
use gas_management.Service.Result.{TxReceipt, receipt_is, Effects, get_meta_tx_result}
use gas_management.Service.Result.Receipt.{get_transaction_receipt}
use gas_management.Service.Result.Same.{AllSay, readings_agree}
use gas_management.Service.Revert.{
  decode_revert_reason, decode_selector, decode_error_string, slice, error_text,
  error_string_selector,
}
use gas_management.Service.Revert.Slices.{said_length, decode_revert_reason-panics_iff}
use gas_management.Service.Revert.ErrorString.{encode_error, decode_revert_reason-encode_error}

abbrev receipt : TxReceipt
receipt = record { status = 1; contract_address = []; logs = refusal }

readings_agree_example :
    let before : Effects = record { tracker = counted; log = [] } in
    let read = read_hub_events hub 7 (some receipt.logs) counted in
    AllSay hub receipt read
      (get_meta_tx_result hub 7 (receipt_is (some receipt)) before)
      (get_transaction_receipt hub 7 (receipt_is (some receipt)) before)
    × ((read.0 ≡ none) ↔ Hostile hub receipt.logs)
readings_agree_example = readings_agree hub 7 receipt counted

decode_revert_reason-panics_iff_example : (decode_revert_reason hostile_output ≡ none) ↔ (
    (set_bytes 0 (take 4 hostile_output) ≡ error_string_selector)
    × (68 ≤ length hostile_output)
    × (u64_mod - 68 ≤ said_length hostile_output))
decode_revert_reason-panics_iff_example = decode_revert_reason-panics_iff hostile_output

hostile_panics : decode_revert_reason hostile_output ≡ none
unfolding decode_revert_reason decode_selector decode_error_string slice set_bytes word
hostile_panics = refl

decode_revert_reason-encode_error_example :
    decode_revert_reason (encode_error (110 ∷ 111 ∷ []) (0 ∷ []))
    ≡ some (error_text (110 ∷ 111 ∷ []))
decode_revert_reason-encode_error_example =
    decode_revert_reason-encode_error (110 ∷ 111 ∷ []) (0 ∷ []) (omega arith)
