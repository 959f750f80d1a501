-- ===== src/Service/Decoded/Unread.antt =====
-- The line relay.decoded beside the validation of the suffix that follows it.
use gas_management.Base.{ℕ, ◌≡◌, Option, none, arith}
use gas_management.Base.Int.{ℤ}
use gas_management.Config.{Config}
use gas_management.Service.Rejection.{Result}
use gas_management.Service.Validation.{validate_gas_model_suffix}
use gas_management.Service.Prepare.{Transaction}
use gas_management.Service.Decoded.{decoded_fields}

-- A metatx of which the line names no node is not rejected for its suffix, which could not be read.
pub decoded_fields-validate :
    (tx : Transaction) (from limit : ℕ) (unix_now : ℤ) (config : Option Config) (mine : Result ℕ)
    (now : ℤ)
    → (decoded_fields tx from limit unix_now).node_address ≡ none
    → validate_gas_model_suffix config tx.payload mine now ≡ none
unfolding decoded_fields validate_gas_model_suffix
decoded_fields-validate tx from limit unix_now config mine now h = ground arith
