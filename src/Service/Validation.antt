-- ===== src/Service/Validation.antt =====
-- service/validation.go and `ExpirationFloor` of model/RuntimeConfig.go: what the suffix of a metatx
-- is rejected for.
pub mod Accepts
use gas_management.Base.{
  ℕ, ◌+◌, ◌-◌, Bool, true, false, Option, none, some, List, ltb, ◌==◌, not, ◌&&◌, if◌then◌else◌,
}
use gas_management.Base.Int.{ℤ, pos, sub64, leb_ℤ, int64}
use gas_management.Config.{Config, ValidationConfig}
use gas_management.Service.Rejection.{
  Rejection, Result, ok, err, reject, reject_with_details, relay_error, wrong_node, has_expired,
  expires_too_soon, wrong_node_address, expired, expiration_too_low, node_details, expired_details,
  window_details,
}
use gas_management.Service.MetaTx.{GasModelFields, decode_gas_model_suffix, expiration_seconds}

abbrev pub no_validation : ValidationConfig
no_validation = record {
  enforce_node_address = false;
  enforce_expiration = false;
  min_expiration_seconds = 0;
  expiration_tolerance_seconds = 0;
}

unfoldable pub validation_config : Option Config → ValidationConfig
validation_config none = no_validation
validation_config (some config) = config.validation

-- The minimum less the tolerance, but not below 0.
unfoldable pub expiration_floor : ValidationConfig → ℕ
expiration_floor v =
    if ltb v.min_expiration_seconds v.expiration_tolerance_seconds
    then 0
    else v.min_expiration_seconds - v.expiration_tolerance_seconds

unfoldable pub node_address_matches : GasModelFields → ℕ → Option Rejection
node_address_matches fields mine =
    if fields.node_address == mine
    then none
    else some (
        reject_with_details (wrong_node fields.node_address mine) wrong_node_address
          (node_details fields.node_address mine))

-- `mine` is the address of this node, or the error of the key that it is read from.
unfoldable pub check_node_address : GasModelFields → Result ℕ → Option Rejection
check_node_address fields (err cause) = some (reject cause relay_error)
check_node_address fields (ok mine) = node_address_matches fields mine

unfoldable pub expired_rejection : ℕ → ℤ → Rejection
expired_rejection expiration now =
    reject_with_details (has_expired (int64 expiration) now) expired
      (expired_details expiration now)

unfoldable pub too_low_rejection : ℕ → ℤ → ValidationConfig → Rejection
too_low_rejection expiration now v =
    let remaining = sub64 (int64 expiration) now in
    reject_with_details
      (expires_too_soon remaining v.min_expiration_seconds v.expiration_tolerance_seconds
        (int64 expiration) now)
      expiration_too_low
      (window_details expiration remaining v.min_expiration_seconds v.expiration_tolerance_seconds)

unfoldable pub check_seconds : Option ℕ → ℤ → ValidationConfig → Option Rejection
check_seconds none now v = none
check_seconds (some expiration) now v =
    if leb_ℤ (int64 expiration) now
    then some (expired_rejection expiration now)
    else (if leb_ℤ (pos (expiration_floor v)) (sub64 (int64 expiration) now)
        then none
        else some (too_low_rejection expiration now v))

unfoldable pub check_expiration : GasModelFields → ℤ → ValidationConfig → Option Rejection
check_expiration fields now v = check_seconds (expiration_seconds fields) now v

unfoldable pub or_expiration :
    Option Rejection → GasModelFields → ℤ → ValidationConfig → Option Rejection
or_expiration (some r) fields now v = some r
or_expiration none fields now v =
    if v.enforce_expiration then check_expiration fields now v else none

unfoldable pub validate_fields : GasModelFields → Result ℕ → ℤ → ValidationConfig → Option Rejection
validate_fields fields mine now v =
    or_expiration (if v.enforce_node_address then check_node_address fields mine else none) fields
      now v

-- `now` is the clock in unix seconds, read once.
unfoldable pub validate_gas_model_suffix : Option Config → List ℕ → Result ℕ → ℤ → Option Rejection
validate_gas_model_suffix config data' mine now =
    let v = validation_config config in
    let fields = decode_gas_model_suffix data' in
    if not v.enforce_node_address && not v.enforce_expiration
    then none
    else (if fields.decoded then validate_fields fields mine now v else none)
