-- ===== src/Service/Prepare.antt =====
-- PrepareMetaTx of service/prepare.go and GetTransaction of service/transaction.go: from a raw
-- transaction to a metatx that can be sent. The libraries are parameters: what RLP leaves of the bytes,
-- whom a signature names, and the RLP of what the user signed.
pub mod Accepts
use gas_management.Base.{
  ℕ, ◌+◌, ◌*◌, ◌-◌, ◌/◌, Bool, true, false, not, ◌&&◌, ◌||◌, Option, none, some, List, [], ◌∷◌,
  ◌++◌, Key, length, drop, ltb, leb, ◌==◌, if◌then◌else◌,
}
use gas_management.Base.Int.{ℤ, u64}
use gas_management.Config.{Config}
use gas_management.Service.Rejection.{
  Rejection, Cause, Result, ok, err, reject, bad_raw_tx, bad_meta_tx, permissioning_unavailable,
  sender_not_permitted, relay_error, malformed_raw, bad_signature, not_pre_eip155,
  sender_not_permitted_cause, internal_error,
}
use gas_management.Service.MetaTx.Suffix.{word}
use gas_management.Service.Validation.{validate_gas_model_suffix}
use gas_management.Service.Permissioning.{Permits, account_permitted}
use gas_management.Service.Send.{PreparedMetaTx}

-- A signed transaction; a value that is nil is none.
pub record Transaction : Type 0 where
  pub nonce : ℕ
  pub gas : ℕ
  pub gas_price : ℕ
  pub value : ℕ
  pub to : Option ℕ
  pub payload : Key
  pub v : Option ℕ
  pub r : Option ℕ
  pub s : Option ℕ

-- What the user signed: `txdata` of model/RawTransaction.go.
pub record SigningData : Type 0 where
  pub account_nonce : ℕ
  pub price : ℕ
  pub gas_limit : ℕ
  pub recipient : Option ℕ
  pub amount : ℕ
  pub payload : Key

pub record Codec : Type 0 where
  pub decode_rlp : Key → Transaction
  pub sender_of : Transaction → Result ℕ
  pub encode_rlp : SigningData → Result Key
  pub address_hex : ℕ → Key

-- The value of a hexadecimal digit, in ASCII.
unfoldable pub digit_value : ℕ → Option ℕ
digit_value c =
    if leb b'0' c && leb c b'9'
    then some (c - b'0')
    else (if leb b'a' c && leb c b'f'
        then some (c - b'a' + 10)
        else (if leb b'A' c && leb c b'F' then some (c - b'A' + 10) else none))

byte_of : Option ℕ → Option ℕ → Option Key → Option Key
byte_of (some high) (some low) (some rest) = some ((high * 16 + low) ∷ rest)
byte_of (some high) (some low) none = none
byte_of (some high) none rest = none
byte_of none low rest = none

-- `hex.DecodeString`: pairs of digits, and nothing else.
unfoldable pub hex_decode : Key → Option Key
unfolding digit_value byte_of
hex_decode [] = some []
hex_decode (c ∷ []) = none
hex_decode (c ∷ d ∷ cs) = byte_of (digit_value c) (digit_value d) (hex_decode cs)

abbrev pub decoded_tx : Codec → Option Key → Result Transaction
decoded_tx codec none = err malformed_raw
decoded_tx codec (some bytes) = ok (codec.decode_rlp bytes)

-- `GetTransaction`: bytes that are not the RLP of a transaction are no error here.
unfoldable pub get_transaction : Codec → Key → Result Transaction
get_transaction codec raw_tx = decoded_tx codec (hex_decode raw_tx)

-- `trimHexPrefix`.
unfoldable pub trim_hex_prefix : Key → Key
trim_hex_prefix [] = []
trim_hex_prefix (c ∷ []) = c ∷ []
trim_hex_prefix (c ∷ d ∷ cs) =
    if (c == b'0') && ((d == b'x') || (d == b'X')) then cs else c ∷ d ∷ cs

-- `metaTxGasLimit`, a sum of uint64.
unfoldable pub meta_tx_gas_limit_of : Transaction → ℕ
meta_tx_gas_limit_of tx = u64 (length tx.payload * 105 + 300000 + tx.gas)

abbrev pub signing_data_of : Transaction → SigningData
signing_data_of tx = record {
  account_nonce = tx.nonce;
  price = tx.gas_price;
  gas_limit = tx.gas;
  recipient = tx.to;
  amount = tx.value;
  payload = tx.payload;
}

-- PreparedMetaTx: `meta_tx` is what the path to the send reads. `r` and `s` are 32 bytes.
pub record Prepared : Type 0 where
  pub meta_tx : PreparedMetaTx
  pub transaction : Transaction
  pub from : ℕ
  pub to : Option ℕ
  pub signing_data : Key
  pub v : ℕ
  pub r : Key
  pub s : Key
  pub is_deploy : Bool

pub data Preparation : Type 0 where
  prepared : Prepared → Preparation
  unprepared : Rejection → Preparation

-- What else decides: the address of this node, the clocks, the answer of the contract of rules, and
-- the identities that the context carries.
pub record Arrival : Type 0 where
  pub mine : Result ℕ
  pub unix_now : ℤ
  pub now : ℕ
  pub later : ℕ
  pub permitted : Result Bool
  pub req_id : Key
  pub meta_tx_id : Key

abbrev pub is_deployment : Option ℕ → Bool
is_deployment none = true
is_deployment (some to) = false

abbrev pub prepared_of : Codec → Arrival → Transaction → ℕ → ℕ → ℕ → ℕ → Key → Prepared
prepared_of codec e tx from v r s signing_data = record {
  meta_tx = record {
    sender = codec.address_hex from;
    nonce = tx.nonce;
    meta_tx_gas_limit = meta_tx_gas_limit_of tx;
    req_id = e.req_id;
    meta_tx_id = e.meta_tx_id;
  };
  transaction = tx;
  from = from;
  to = tx.to;
  signing_data = signing_data;
  v = v;
  r = word 32 r;
  s = word 32 s;
  is_deploy = is_deployment tx.to;
}

unfoldable pub encode_signing :
    Codec → Arrival → Transaction → ℕ → ℕ → ℕ → ℕ → Result Key → Preparation
encode_signing codec e tx from v r s (err cause) = unprepared (reject internal_error relay_error)
encode_signing codec e tx from v r s (ok signing_data) =
    prepared (prepared_of codec e tx from v r s signing_data)

-- What follows the check of the sender.
unfoldable pub check_sender : Result Bool → Preparation → Preparation
check_sender (err cause) rest = unprepared (reject cause permissioning_unavailable)
check_sender (ok false) rest = unprepared (reject sender_not_permitted_cause sender_not_permitted)
check_sender (ok true) rest = rest

unfoldable pub with_permission :
    Codec → Config → Arrival → Transaction → ℕ → ℕ → ℕ → ℕ → Permits → Preparation × Permits
with_permission codec config e tx from v r s permits =
    let rest = encode_signing codec e tx from v r s (codec.encode_rlp (signing_data_of tx)) in
    let (answer, permits') =
      account_permitted (some config) permits from e.now e.later e.permitted in
    if config.security.permissions_enabled
    then (check_sender answer rest, permits')
    else (rest, permits)

unfoldable pub with_suffix :
    Option Rejection
    → Codec
    → Config
    → Arrival
    → Transaction
    → ℕ
    → ℕ
    → ℕ
    → ℕ
    → Permits
    → Preparation × Permits
with_suffix (some rejection) codec config e tx from v r s permits = (unprepared rejection, permits)
with_suffix none codec config e tx from v r s permits =
    with_permission codec config e tx from v r s permits

unfoldable pub with_sender :
    Result ℕ → Codec → Config → Arrival → Transaction → ℕ → ℕ → ℕ → Permits → Preparation × Permits
with_sender (err cause) codec config e tx v r s permits =
    (unprepared (reject cause bad_meta_tx), permits)
with_sender (ok from) codec config e tx v r s permits =
    with_suffix (validate_gas_model_suffix (some config) tx.payload e.mine e.unix_now) codec config
      e tx from v r s permits

unfoldable pub with_signature :
    Option ℕ
    → Option ℕ
    → Option ℕ
    → Codec
    → Config
    → Arrival
    → Transaction
    → Permits
    → Preparation × Permits
with_signature none r s codec config e tx permits =
    (unprepared (reject bad_signature bad_meta_tx), permits)
with_signature (some v) none s codec config e tx permits =
    (unprepared (reject bad_signature bad_meta_tx), permits)
with_signature (some v) (some r) none codec config e tx permits =
    (unprepared (reject bad_signature bad_meta_tx), permits)
with_signature (some v) (some r) (some s) codec config e tx permits =
    if not (u64 v == 27) && not (u64 v == 28)
    then (unprepared (reject not_pre_eip155 bad_meta_tx), permits)
    else with_sender (codec.sender_of tx) codec config e tx (u64 v) r s permits

unfoldable pub with_transaction :
    Result Transaction → Codec → Config → Arrival → Permits → Preparation × Permits
with_transaction (err cause) codec config e permits =
    (unprepared (reject cause bad_raw_tx), permits)
with_transaction (ok tx) codec config e permits =
    with_signature tx.v tx.r tx.s codec config e tx permits

-- `PrepareMetaTx`.
unfoldable pub prepare_meta_tx : Codec → Config → Arrival → Key → Permits → Preparation × Permits
prepare_meta_tx codec config e raw_tx permits =
    with_transaction (get_transaction codec (trim_hex_prefix raw_tx)) codec config e permits
