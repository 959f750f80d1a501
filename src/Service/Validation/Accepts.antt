-- ===== src/Service/Validation/Accepts.antt =====
-- What is accepted, exactly.
use gas_management.Base.{
  ℕ, ◌+◌, ◌-◌, ◌≤◌, ◌<◌, ◌≡◌, refl, ◌⊎◌, ◌↔◌, inl, inr, Bool, true, false, Option, none, some, List,
  length, ltb, leb, not, ◌&&◌, arith, Bool-cases, if◌then◌else◌,
}
use gas_management.Base.Int.{ℤ, pos, i64_half, u64_mod, sub64_exact}
use gas_management.Config.{Config, ValidationConfig}
use gas_management.Service.Rejection.{Rejection, Result, ok, err}
use gas_management.Service.MetaTx.{GasModelFields, decode_gas_model_suffix, expiration_seconds}
use gas_management.Service.MetaTx.Suffix.{decoded_iff}
use gas_management.Service.Validation.{
  validation_config, expiration_floor, node_address_matches, check_node_address, check_seconds,
  check_expiration, or_expiration, validate_fields, validate_gas_model_suffix, expired_rejection,
}

-- The minimum that is demanded is at most the configured one, and with the tolerance added back it
-- is at least the configured one.
pub expiration_floor_le :
    (v : ValidationConfig)
    → (expiration_floor v ≤ v.min_expiration_seconds)
      × (v.min_expiration_seconds ≤ expiration_floor v + v.expiration_tolerance_seconds)
unfolding expiration_floor
expiration_floor_le v = ground arith

-- An expiration of less than 2 ^ 63 is the integer it says.
check_small :
    (e n : ℕ) (v : ValidationConfig)
    → e < i64_half
    → (check_seconds (some e) (pos n) v ≡ none) ↔ ((n < e) × (n + expiration_floor v ≤ e))
unfolding check_seconds
check_small e n v small = elim (Bool-cases (leb e n)) [
  | inl late ↦ ground arith
  | inr early ↦
      let exact = sub64_exact e n small (ground arith) in
      elim (Bool-cases (leb (expiration_floor v) (e - n))) [
        | inl enough ↦ ground arith
        | inr short ↦ ground arith
      ]
]

-- One of 2 ^ 63 or more, below 2 ^ 64, wraps to a negative one.
check_wrapped :
    (e n : ℕ) (v : ValidationConfig)
    → i64_half ≤ e
    → check_seconds (some e) (pos n) v ≡ some (expired_rejection e (pos n))
unfolding check_seconds
check_wrapped e n v big = ground arith

-- Of a suffix that was read, at a time `n` of the clock, exactly these expirations are accepted:
-- one that is no uint64; and one of less than 2 ^ 63 that lies after `n`, by the minimum less
-- the tolerance at least. One from 2 ^ 63 up to 2 ^ 64 is thus rejected at any time.
pub check_expiration-accepts_iff :
    (fields : GasModelFields) (n : ℕ) (v : ValidationConfig)
    → fields.decoded ≡ true
    → (check_expiration fields (pos n) v ≡ none) ↔ (
        (u64_mod ≤ fields.expiration)
        ⊎ ((fields.expiration < i64_half)
            × (n < fields.expiration)
            × (n + expiration_floor v ≤ fields.expiration)))
unfolding check_expiration expiration_seconds check_seconds
check_expiration-accepts_iff fields n v d =
    rw d (elim (Bool-cases (ltb fields.expiration u64_mod)) [
      | inl fits ↦ elim (Bool-cases (ltb fields.expiration i64_half)) [
        | inl small ↦ let (f, g) = check_small fields.expiration n v (ground arith) in ground arith
        | inr big ↦ let e = check_wrapped fields.expiration n v (ground arith) in ground arith
      ]
      | inr huge ↦ ground arith
    ])

check_node_address-accepts_iff :
    (fields : GasModelFields) (mine : Result ℕ)
    → (check_node_address fields mine ≡ none) ↔ (mine ≡ ok fields.node_address)
unfolding check_node_address node_address_matches
check_node_address-accepts_iff fields (ok m) = ground arith
check_node_address-accepts_iff fields (err c) = ground arith

module _ (fields : GasModelFields) (mine : Result ℕ) (now : ℤ) where
  abbrev Accepted : Bool → Bool → ValidationConfig → Type 0
  Accepted node time v =
      (node ≡ true → mine ≡ ok fields.node_address)
      × (time ≡ true → check_expiration fields now v ≡ none)

  -- With the outcome of the check of the address as `o`.
  or_expiration-accepts_iff :
      (o : Option Rejection) (node : Bool) (v : ValidationConfig)
      → (o ≡ none) ↔ (mine ≡ ok fields.node_address)
      → (or_expiration (if node then o else none) fields now v ≡ none)
        ↔ Accepted node v.enforce_expiration v
  unfolding or_expiration
  or_expiration-accepts_iff none true v (f, g) = elim (Bool-cases v.enforce_expiration) [
    | inl e ↦ rw e (λ h. (λ _. f refl, λ _. h), λ h. h.1 refl)
    | inr e ↦ rw e (λ h. (λ _. f refl, λ p. absurd (cc)), λ h. refl)
  ]
  or_expiration-accepts_iff (some r) true v (f, g) =
      (λ h. absurd (cc), λ h. absurd (let e = g (h.0 refl) in cc))
  or_expiration-accepts_iff o false v fg = elim (Bool-cases v.enforce_expiration) [
    | inl e ↦ rw e (λ h. (λ p. absurd (cc), λ _. h), λ h. h.1 refl)
    | inr e ↦ rw e (λ h. (λ p. absurd (cc), λ p. absurd (cc)), λ h. refl)
  ]

  validate_fields-accepts_iff :
      (v : ValidationConfig)
      → (validate_fields fields mine now v ≡ none)
        ↔ Accepted v.enforce_node_address v.enforce_expiration v
  unfolding validate_fields
  validate_fields-accepts_iff v =
      or_expiration-accepts_iff (check_node_address fields mine) v.enforce_node_address v
        (check_node_address-accepts_iff fields mine)

  -- With the answer to whether the suffix was read as `d`, `short` for data that is too short, and
  -- the outcome of the checks as `o`.
  guarded-accepts_iff :
      (short : Type 0) (d node time : Bool) (o : Option Rejection) (v : ValidationConfig)
      → (d ≡ false) ↔ short
      → (o ≡ none) ↔ Accepted node time v
      → ((if not node && not time then none else (if d then o else none)) ≡ none)
        ↔ (short ⊎ Accepted node time v)
  guarded-accepts_iff short false true time o v (f, g) (h, k) = (λ _. inl (f refl), λ _. refl)
  guarded-accepts_iff short false false true o v (f, g) (h, k) = (λ _. inl (f refl), λ _. refl)
  guarded-accepts_iff short d false false o v (f, g) (h, k) =
      (λ _. inr (λ p. absurd (cc), λ p. absurd (cc)), λ _. refl)
  guarded-accepts_iff short true true time o v (f, g) (h, k) =
      (λ e. inr (h e), λ q. elim q [ inl s ↦ absurd (let e = g s in cc) | inr a ↦ k a ])
  guarded-accepts_iff short true false true o v (f, g) (h, k) =
      (λ e. inr (h e), λ q. elim q [ inl s ↦ absurd (let e = g s in cc) | inr a ↦ k a ])

-- A metatx is accepted exactly if its data is too short for a suffix, or its suffix names this node
-- (where that is enforced) and its expiration is accepted (where that is enforced).
pub validate-accepts_iff :
    (config : Option Config) (data' : List ℕ) (mine : Result ℕ) (now : ℤ)
    → (validate_gas_model_suffix config data' mine now ≡ none) ↔ (
        (length data' < 64)
        ⊎ (((validation_config config).enforce_node_address ≡ true
              → mine ≡ ok (decode_gas_model_suffix data').node_address)
            × ((validation_config config).enforce_expiration ≡ true
                → check_expiration (decode_gas_model_suffix data') now (validation_config config)
                  ≡ none)))
unfolding validate_gas_model_suffix
validate-accepts_iff config data' mine now =
    let (p, q) = decoded_iff data' in
    let v = validation_config config in
    let fields = decode_gas_model_suffix data' in
    guarded-accepts_iff fields mine now (length data' < 64) fields.decoded v.enforce_node_address
      v.enforce_expiration (validate_fields fields mine now v) v (ground arith)
      (validate_fields-accepts_iff fields mine now v)
