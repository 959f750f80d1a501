-- ===== src/Examples/Suffix.antt =====
-- The suffix of the gas model and its checks.
use gas_management.Base.{
  ℕ, ◌+◌, ◌≤◌, ◌<◌, ◌≡◌, refl, ◌⊎◌, ◌↔◌, true, some, none, List, [], ◌∷◌, ◌++◌, length, arith,
}
use gas_management.Base.Int.{pos, u64_mod, i64_half}
use gas_management.Config.{ValidationConfig}
use gas_management.Examples.{small_config}
use gas_management.Service.Rejection.{ok}
use gas_management.Service.MetaTx.{GasModelFields, decode_gas_model_suffix, selector_of}
use gas_management.Service.MetaTx.Suffix.{abi_encode, decode_gas_model_suffix-abi_encode}
use gas_management.Service.Validation.{
  validation_config, expiration_floor, check_expiration, validate_gas_model_suffix,
}
use gas_management.Service.Validation.Accepts.{check_expiration-accepts_iff, validate-accepts_iff}

-- A selector of four bytes, then the suffix of node 7 and expiration 5000.
abbrev inner : List ℕ
inner = 1 ∷ 2 ∷ 3 ∷ 4 ∷ []

decode_gas_model_suffix-abi_encode_example :
    decode_gas_model_suffix (inner ++ abi_encode 7 5000) ≡ record {
      decoded = true;
      node_address = 7;
      expiration = 5000;
      inner_data = inner;
      selector = selector_of inner;
    }
decode_gas_model_suffix-abi_encode_example =
    decode_gas_model_suffix-abi_encode inner 7 5000 (omega arith) (omega arith)

abbrev rules : ValidationConfig
rules = small_config.validation

-- An expiration of 2 ^ 63, 5000 years after any date.
abbrev far : GasModelFields
far = record {
  decoded = true;
  node_address = 7;
  expiration = 9223372036854775808;
  inner_data = inner;
  selector = [];
}

check_expiration-accepts_iff_example : (check_expiration far (pos 1000) rules ≡ none) ↔ (
    (u64_mod ≤ far.expiration)
    ⊎ ((far.expiration < i64_half)
        × (1000 < far.expiration)
        × (1000 + expiration_floor rules ≤ far.expiration)))
check_expiration-accepts_iff_example = check_expiration-accepts_iff far 1000 rules refl

validate-accepts_iff_example :
    (validate_gas_model_suffix (some small_config) (inner ++ abi_encode 7 5000) (ok 7) (pos 1000)
      ≡ none)
    ↔ ((length (inner ++ abi_encode 7 5000) < 64)
        ⊎ (((validation_config (some small_config)).enforce_node_address ≡ true
              → ok 7 ≡ ok (decode_gas_model_suffix (inner ++ abi_encode 7 5000)).node_address)
            × ((validation_config (some small_config)).enforce_expiration ≡ true
                → check_expiration
                    (decode_gas_model_suffix (inner ++ abi_encode 7 5000))
                    (pos 1000)
                    (validation_config (some small_config))
                  ≡ none)))
validate-accepts_iff_example =
    validate-accepts_iff (some small_config) (inner ++ abi_encode 7 5000) (ok 7) (pos 1000)
