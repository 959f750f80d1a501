-- ===== src/Controller/Dispatch.antt =====
-- SignTransaction of controller/relayController.go, the methods of a message of rpc/json.go, and the
-- handlers of controller/processController.go: what is written for a JSON-RPC request. What
-- encoding/json reads is a parameter, and what it writes is taken to be written.
pub mod Writes
use gas_management.Base.{
  ℕ, Bool, true, false, Option, none, some, List, [], ◌∷◌, Key, map, if◌then◌else◌, texts_eq,
  has_suffix, to_upper,
}
use gas_management.Config.{Config}
use gas_management.Service.Rejection.{
  Cause, Failure, plain, Result, ok, err, internal_error, hash_expected, block_not_defined,
  method_not_supported,
}
use gas_management.Service.HubLog.{Hub}
use gas_management.Service.Outcome.{Warning}
use gas_management.Service.Send.{Passage, Office}
use gas_management.Service.Result.{ReceiptRead, Answer, Effects, MetaTxResult, get_meta_tx_result}
use gas_management.Service.Result.Receipt.{ReceiptAnswer, get_transaction_receipt}
use gas_management.Service.Nonce.{CountReads, Asking, CountAnswer, get_transaction_count}
use gas_management.Service.Prepare.{Codec, Arrival}
use gas_management.Service.Relay.{House}
use gas_management.Controller.Router.{has_prefix}
use gas_management.Controller.Doors.{RpcReply, process_raw_transaction}

-- "priv_", "eea_", the suffixes of the methods, and the names of a block.
abbrev pub priv_prefix : Key
priv_prefix = b'p' ∷ b'r' ∷ b'i' ∷ b'v' ∷ b'_' ∷ []

abbrev pub eea_prefix : Key
eea_prefix = b'e' ∷ b'e' ∷ b'a' ∷ b'_' ∷ []

abbrev pub raw_suffix : Key
raw_suffix =
    b'_' ∷ b's' ∷ b'e' ∷ b'n' ∷ b'd' ∷ b'R' ∷ b'a' ∷ b'w' ∷ b'T' ∷ b'r' ∷ b'a' ∷ b'n' ∷ b's' ∷ b'a'
    ∷ b'c' ∷ b't' ∷ b'i' ∷ b'o' ∷ b'n' ∷ []

abbrev pub receipt_suffix : Key
receipt_suffix =
    b'_' ∷ b'g' ∷ b'e' ∷ b't' ∷ b'T' ∷ b'r' ∷ b'a' ∷ b'n' ∷ b's' ∷ b'a' ∷ b'c' ∷ b't' ∷ b'i' ∷ b'o'
    ∷ b'n' ∷ b'R' ∷ b'e' ∷ b'c' ∷ b'e' ∷ b'i' ∷ b'p' ∷ b't' ∷ []

abbrev pub count_suffix : Key
count_suffix =
    b'_' ∷ b'g' ∷ b'e' ∷ b't' ∷ b'T' ∷ b'r' ∷ b'a' ∷ b'n' ∷ b's' ∷ b'a' ∷ b'c' ∷ b't' ∷ b'i' ∷ b'o'
    ∷ b'n' ∷ b'C' ∷ b'o' ∷ b'u' ∷ b'n' ∷ b't' ∷ []

abbrev pub result_suffix : Key
result_suffix =
    b'_' ∷ b'g' ∷ b'e' ∷ b't' ∷ b'M' ∷ b'e' ∷ b't' ∷ b'a' ∷ b'T' ∷ b'x' ∷ b'R' ∷ b'e' ∷ b's' ∷ b'u'
    ∷ b'l' ∷ b't' ∷ []

abbrev pub pending_text : Key
pending_text = b'P' ∷ b'E' ∷ b'N' ∷ b'D' ∷ b'I' ∷ b'N' ∷ b'G' ∷ []

abbrev pub latest_text : Key
latest_text = b'L' ∷ b'A' ∷ b'T' ∷ b'E' ∷ b'S' ∷ b'T' ∷ []

pub data Method : Type 0 where
  private_call private_send raw_transaction transaction_receipt transaction_count : Method
  meta_tx_result unsupported : Method

-- `IsPrivTransaction` and the other tests, in the order of SignTransaction.
unfoldable pub method_of : Key → Method
method_of text =
    if has_prefix priv_prefix text
    then private_call
    else (if has_prefix eea_prefix text
        then private_send
        else (if has_suffix raw_suffix text
            then raw_transaction
            else (if has_suffix receipt_suffix text
                then transaction_receipt
                else (if has_suffix count_suffix text
                    then transaction_count
                    else (if has_suffix result_suffix text then meta_tx_result else unsupported)))))

-- A message, with what its params are as a list of texts.
pub record Message : Type 0 where
  pub method : Key
  pub params : Result (List Key)

-- What is written to the client. A private request goes on to the node, after the gas of the node is
-- decreased or not.
pub data Written : Type 0 where
  wrote_error : Cause → Written
  wrote_raw : RpcReply → Written
  wrote_receipt : Answer ReceiptAnswer → Written
  wrote_result : Answer MetaTxResult → Written
  wrote_count : CountAnswer → Written
  wrote_null : Written
  forwarded : Bool → Written

-- A handler panics, which net/http recovers, so the request ends without an answer, or waits on for its turn, or has written.
pub data Handled : Type 0 where
  panicked : House → Handled
  waits_on : Handled
  wrote : List Written → House → Handled

-- What a request meets: the node's answers, the clock and the other requests.
pub record World : Type 0 where
  pub codec : Codec
  pub hub : Hub
  pub hex_to_hash : Key → ℕ
  pub arrival : Arrival
  pub passage : Passage
  pub receipt : ReceiptRead
  pub count : CountReads
  pub asking : Asking

-- `params[0][2:]`.
unfoldable pub after_prefix : List Key → Option Key
after_prefix [] = none
after_prefix ([] ∷ ps) = none
after_prefix ((c ∷ []) ∷ ps) = none
after_prefix ((c ∷ d ∷ cs) ∷ ps) = some cs

abbrev pub effects_of : House → Effects
effects_of h = record { tracker = h.office.tracker; log = [] }

abbrev pub with_effects : House → Effects → House
with_effects h e = record h { office = record h.office { tracker = e.tracker } }

abbrev pub receipt_reply : House → Option (Answer ReceiptAnswer) × Effects → Handled
receipt_reply h (none, e) = panicked (with_effects h e)
receipt_reply h (some answer, e) = wrote (wrote_receipt answer ∷ []) (with_effects h e)

abbrev pub receipt_after : World → House → Option Key → Handled
receipt_after w h none = panicked h
receipt_after w h (some text) =
    receipt_reply h (get_transaction_receipt w.hub (w.hex_to_hash text) w.receipt (effects_of h))

-- `processGetTransactionReceipt`.
unfoldable pub process_get_transaction_receipt : World → Result (List Key) → House → Handled
process_get_transaction_receipt w (err cause) h = wrote (wrote_error internal_error ∷ []) h
process_get_transaction_receipt w (ok params) h = receipt_after w h (after_prefix params)

abbrev pub result_reply : House → Option (Answer MetaTxResult) × Effects → Handled
result_reply h (none, e) = panicked (with_effects h e)
result_reply h (some answer, e) = wrote (wrote_result answer ∷ []) (with_effects h e)

abbrev pub result_after : World → House → Option Key → Handled
result_after w h none = panicked h
result_after w h (some text) =
    result_reply h (get_meta_tx_result w.hub (w.hex_to_hash text) w.receipt (effects_of h))

-- `processGetMetaTxResult`.
unfoldable pub process_get_meta_tx_result : World → Result (List Key) → House → Handled
process_get_meta_tx_result w (err cause) h = wrote (wrote_error hash_expected ∷ []) h
process_get_meta_tx_result w (ok []) h = wrote (wrote_error hash_expected ∷ []) h
process_get_meta_tx_result w (ok (p ∷ ps)) h = result_after w h (after_prefix (p ∷ ps))

unfoldable pub count_reply : World → Key → Bool → House → Handled
count_reply w from is_pending h =
    let (answer, office) = get_transaction_count h.office from is_pending w.count w.asking in
    wrote (wrote_count answer ∷ []) (record h { office = office })

-- `processTransactionCount`: a block of another name writes an error, and then the response that there
-- is not.
unfoldable pub process_transaction_count : World → Result (List Key) → House → Handled
process_transaction_count w (err cause) h = wrote (wrote_error internal_error ∷ []) h
process_transaction_count w (ok []) h = panicked h
process_transaction_count w (ok (from ∷ [])) h = count_reply w from false h
process_transaction_count w (ok (from ∷ block ∷ ps)) h =
    let upper = map to_upper block in
    if texts_eq upper pending_text
    then count_reply w from true h
    else (if texts_eq upper latest_text
        then count_reply w from false h
        else wrote (wrote_error block_not_defined ∷ wrote_null ∷ []) h)

abbrev pub raw_reply : Option (RpcReply × House) → Handled
raw_reply none = waits_on
raw_reply (some (reply, h)) = wrote (wrote_raw reply ∷ []) h

unfoldable pub handle : Method → Config → World → Result (List Key) → House → Handled
handle private_call config w params h = wrote (forwarded false ∷ []) h
handle private_send config w params h = wrote (forwarded true ∷ []) h
handle raw_transaction config w params h =
    raw_reply (process_raw_transaction w.codec config w.arrival w.passage params h)
handle transaction_receipt config w params h = process_get_transaction_receipt w params h
handle transaction_count config w params h = process_transaction_count w params h
handle meta_tx_result config w params h = process_get_meta_tx_result w params h
handle unsupported config w params h = wrote (wrote_error method_not_supported ∷ []) h

-- `SignTransaction`: a body that is no message gets no answer.
unfoldable pub sign_transaction : Config → World → Option Message → House → Handled
sign_transaction config w none h = wrote [] h
sign_transaction config w (some message) h =
    handle (method_of message.method) config w message.params h
