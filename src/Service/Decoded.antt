-- ===== src/Service/Decoded.antt =====
-- DecodedFields of service/prepare.go, and its copy decodedFields of controller/processController.go: what
-- the line relay.decoded says of a metatx.
pub mod Unread
use gas_management.Base.{
  ℕ, Bool, true, false, Option, none, some, Key, length, if◌then◌else◌, is_empty_text,
}
use gas_management.Base.Int.{ℤ, int64, sub64}
use gas_management.Service.MetaTx.{GasModelFields, decode_gas_model_suffix, expiration_seconds}
use gas_management.Service.Prepare.{Transaction, is_deployment}

pub record DecodedFields : Type 0 where
  pub from : ℕ
  pub to : Option ℕ
  pub is_deploy : Bool
  pub nonce : ℕ
  pub user_gas_limit : ℕ
  pub meta_tx_gas_limit : ℕ
  pub data_bytes : ℕ
  pub node_address : Option ℕ
  pub expiration : Option ℕ
  pub expires_in_seconds : Option ℤ
  pub selector : Option Key

abbrev pub no_suffix : Transaction → ℕ → ℕ → DecodedFields
no_suffix tx from meta_tx_gas_limit = record {
  from = from;
  to = tx.to;
  is_deploy = is_deployment tx.to;
  nonce = tx.nonce;
  user_gas_limit = tx.gas;
  meta_tx_gas_limit = meta_tx_gas_limit;
  data_bytes = length tx.payload;
  node_address = none;
  expiration = none;
  expires_in_seconds = none;
  selector = none;
}

abbrev pub selector_field : Key → Option Key
selector_field selector = if is_empty_text selector then none else some selector

abbrev pub expires_in : Option ℕ → ℤ → Option ℤ
expires_in none unix_now = none
expires_in (some expiration) unix_now = some (sub64 (int64 expiration) unix_now)

abbrev pub with_fields : Bool → GasModelFields → ℤ → DecodedFields → DecodedFields
with_fields false gas_model unix_now fields = fields
with_fields true gas_model unix_now fields = record fields {
  node_address = some gas_model.node_address;
  selector = selector_field gas_model.selector;
  expiration = expiration_seconds gas_model;
  expires_in_seconds = expires_in (expiration_seconds gas_model) unix_now;
}

unfoldable pub decoded_fields : Transaction → ℕ → ℕ → ℤ → DecodedFields
decoded_fields tx from meta_tx_gas_limit unix_now =
    let gas_model = decode_gas_model_suffix tx.payload in
    with_fields gas_model.decoded gas_model unix_now (no_suffix tx from meta_tx_gas_limit)
