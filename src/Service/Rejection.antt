-- ===== src/Service/Rejection.antt =====
-- service/prepare.go: a rejection in its two vocabularies. The text of an error is a constructor
-- that carries the numbers which the text prints.
use gas_management.Base.{ℕ, Option, none, some}
use gas_management.Base.Int.{ℤ}

pub data Code : Type 0 where
  bad_raw_tx bad_meta_tx sender_not_permitted permissioning_unavailable : Code
  bad_nonce too_many_inflight wrong_node_address expired expiration_too_low : Code
  send_failed receipt_timeout relay_error : Code

-- An error value. `outside n` is an error of the node, of the key or of a library, with the number
-- of its JSON-RPC code beside it.
pub data Cause : Type 0 where
  outside : ℤ → Cause
  hub_unresolved : Cause
  hub_nonce_unreadable : Cause
  invalid_nonce : ℕ → ℕ → Cause
  inflight_limit : ℕ → ℕ → Cause
  client_closed : Cause
  block_gas_exceeded : Cause
  malformed_raw : Cause
  bad_signature : Cause
  not_pre_eip155 : Cause
  sender_not_permitted_cause : Cause
  rules_unresolved : Cause
  internal_error : Cause
  client_stopped_waiting : Cause
  receipt_unknown : ℕ → Cause
  receipt_unknown_after : ℕ → Cause → Cause
  invalid_params : Cause
  hash_expected : Cause
  block_not_defined : Cause
  method_not_supported : Cause
  wrong_node : ℕ → ℕ → Cause
  has_expired : ℤ → ℤ → Cause
  expires_too_soon : ℤ → ℕ → ℕ → ℤ → ℤ → Cause

-- The data with which a client decides.
pub data Details : Type 0 where
  nonce_details : ℕ → ℕ → ℕ → Details
  inflight_details : ℕ → ℕ → Details
  node_details : ℕ → ℕ → Details
  expired_details : ℕ → ℤ → Details
  window_details : ℕ → ℤ → ℕ → ℕ → Details

pub record Rejection : Type 0 where
  pub cause : Cause
  pub code : Code
  pub details : Option Details

abbrev pub reject : Cause → Code → Rejection
reject cause code = record { cause = cause; code = code; details = none }

abbrev pub reject_with_details : Cause → Code → Details → Rejection
reject_with_details cause code details = record {
  cause = cause;
  code = code;
  details = some details;
}

-- An error is a rejection or a plain error: `CodeOf` falls back to the generic code.
pub data Failure : Type 0 where
  rejection : Rejection → Failure
  plain : Cause → Failure

unfoldable pub code_of : Failure → Code
code_of (rejection r) = r.code
code_of (plain _) = relay_error

unfoldable pub details_of : Failure → Option Details
details_of (rejection r) = r.details
details_of (plain _) = none

pub data Result {ℓ} (A : Type ℓ) : Type ℓ where
  ok : A → Result A
  err : Cause → Result A
