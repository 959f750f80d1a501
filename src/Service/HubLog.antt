-- ===== src/Service/HubLog.antt =====
-- The events of the hub in the logs of a receipt, as all who read them take them: the topics that
-- service/settle.go and service/relaySignerService.go switch over, and transactionRelayedFailed,
-- badTransactionErrorCode and errorCodeName of service/relaySignerService.go. A topic is a number.
use gas_management.Base.{
  ℕ, zero, suc, ◌-◌, Bool, true, false, Option, none, some, List, [], ◌∷◌, Key, ◌==◌, if◌then◌else◌,
}
use gas_management.Service.Revert.{Reason, decode_revert_reason}

pub record Log : Type 0 where
  pub topics : List ℕ
  pub bytes : Key

-- The topics, and the functions of the library of the node: an address from bytes and its text, and
-- the events unpacked from the data of a log, which are the flag and the output of the call, and the
-- code and the sender of a metatx that was refused.
pub record Hub : Type 0 where
  pub contract_deployed : ℕ
  pub transaction_relay : ℕ
  pub bad_transaction : ℕ
  pub relayed : ℕ
  pub gas_used_by_relay_hub : ℕ
  pub bytes_to_address : Key → Key
  pub address_hex : Key → Key
  pub unpack_transaction_relayed : Key → Option (Bool × Key)
  pub unpack_bad_transaction : Key → Option (ℕ × Key)

relayed_or : Option (Bool × Key) → Bool × Key
relayed_or none = (false, [])
relayed_or (some event) = event

-- An event that does not unpack is the one of Go's zero values.
unfoldable pub transaction_relayed_failed : Hub → Key → Bool × Key
unfolding relayed_or
transaction_relayed_failed hub bytes = relayed_or (hub.unpack_transaction_relayed bytes)

zeros : ℕ → Key
zeros zero = []
zeros (suc n) = 0 ∷ zeros n

bad_or : Option (ℕ × Key) → ℕ × Key
unfolding zeros
bad_or none = (0, zeros 20)
bad_or (some event) = event

unfoldable pub bad_transaction_error_code : Hub → Key → ℕ × Key
unfolding bad_or
bad_transaction_error_code hub bytes = bad_or (hub.unpack_bad_transaction bytes)

pub data CodeName : Type 0 where
  max_block_gas_limit : CodeName
  bad_original_sender : CodeName
  bad_nonce : CodeName
  not_enough_gas : CodeName
  is_not_contract : CodeName
  empty_code : CodeName
  invalid_signature : CodeName
  invalid_destination : CodeName
  ok : CodeName
  unknown : ℕ → CodeName

abbrev names : List CodeName
names =
    max_block_gas_limit ∷ bad_original_sender ∷ bad_nonce ∷ not_enough_gas ∷ is_not_contract
    ∷ empty_code ∷ invalid_signature ∷ invalid_destination ∷ ok ∷ []

-- The name at a place of the list, or the code without a name.
name_at : List CodeName → ℕ → ℕ → CodeName
name_at [] place code = unknown code
name_at (name ∷ rest) place code =
    let later = name_at rest (place - 1) code in if place == 0 then name else later

unfoldable pub error_code_name : ℕ → CodeName
unfolding name_at
error_code_name code = name_at names code code

-- The cases of the switch, in their order.
pub data Kind : Type 0 where
  deployed_log : Kind
  transaction_log : Kind
  bad_log : Kind
  relayed_log : Kind
  gas_log : Kind
  other_log : Kind

kind_of_topic : Hub → ℕ → Kind
kind_of_topic hub topic =
    if topic == hub.contract_deployed
    then deployed_log
    else (if topic == hub.transaction_relay
        then transaction_log
        else (if topic == hub.bad_transaction
            then bad_log
            else (if topic == hub.relayed
                then relayed_log
                else (if topic == hub.gas_used_by_relay_hub then gas_log else other_log))))

kind_of_topics : Hub → List ℕ → Kind
unfolding kind_of_topic
kind_of_topics hub [] = other_log
kind_of_topics hub (topic ∷ topics) = kind_of_topic hub topic

unfoldable pub kind_of : Hub → Log → Kind
unfolding kind_of_topics
kind_of hub l = kind_of_topics hub l.topics

-- The text of a revert panics.
abbrev pub no_text : Option Reason → Bool
no_text none = true
no_text (some _) = false

unfoldable pub execution_panics : Bool × Key → Bool
execution_panics (true, output) = false
execution_panics (false, output) = no_text (decode_revert_reason output)

unfoldable pub kind_panics : Hub → Kind → Key → Bool
kind_panics hub deployed_log bytes = false
kind_panics hub transaction_log bytes = execution_panics (transaction_relayed_failed hub bytes)
kind_panics hub bad_log bytes = false
kind_panics hub relayed_log bytes = false
kind_panics hub gas_log bytes = false
kind_panics hub other_log bytes = false

-- Whether the body of a loop over the logs panics at this one, in `decodeRevertReason`.
unfoldable pub log_panics : Hub → Log → Bool
log_panics hub l = kind_panics hub (kind_of hub l) l.bytes

-- A loop over the logs with this body: whether it panics, and the state then.
unfoldable pub loop {ℓ} : {A : Type ℓ} → Hub → (Log → A → A) → List Log → A → Bool × A
loop hub body [] a = (false, a)
loop hub body (l ∷ logs) a =
    let rest = loop hub body logs (body l a) in if log_panics hub l then (true, a) else rest
