-- ===== src/Examples/Requests.antt =====
-- JSON-RPC messages: the count of a block that is not defined, and a receipt without a hash.
use gas_management.Base.{◌≡◌, refl, none, some, [], ◌∷◌}
use gas_management.Examples.{ann, small_config}
use gas_management.Examples.Receipts.{hub}
use gas_management.Examples.Doors.{codec, arrival, passage, house}
use gas_management.Examples.Asking.{asking, reads}
use gas_management.Service.Rejection.{ok, block_not_defined}
use gas_management.Service.Result.{receipt_is}
use gas_management.Controller.Dispatch.{
  World, Message, wrote, wrote_error, wrote_null, panicked, count_suffix, receipt_suffix, method_of,
  sign_transaction, handle, process_transaction_count, process_get_transaction_receipt,
  after_prefix,
}

abbrev world : World
world = record {
  codec = codec;
  hub = hub;
  hex_to_hash = λ text. 7;
  arrival = arrival;
  passage = passage;
  receipt = receipt_is none;
  count = reads;
  asking = asking;
}

abbrev earliest : Message
earliest = record { method = count_suffix; params = ok (ann ∷ ann ∷ []) }

abbrev without_hash : Message
without_hash = record { method = receipt_suffix; params = ok [] }

two_answers :
    sign_transaction small_config world (some earliest) house
    ≡ wrote (wrote_error block_not_defined ∷ wrote_null ∷ []) house
unfolding sign_transaction handle method_of process_transaction_count
two_answers = refl

no_answer : sign_transaction small_config world (some without_hash) house ≡ panicked house
unfolding sign_transaction handle method_of process_get_transaction_receipt after_prefix
no_answer = refl
