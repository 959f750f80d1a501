-- ===== src/Service/MetaTx/Suffix.antt =====
-- DecodeGasModelSuffix on what the gas model writes.
use gas_management.Base.{
  ℕ, zero, suc, ◌+◌, ◌-◌, ◌*◌, ◌/◌, ◌%◌, ◌^◌, ◌<◌, ◌≤◌, ◌≡◌, refl, sym, ap, ◌∙◌, true, false, List,
  [], ◌∷◌, ◌++◌, length, length-append, take, drop, take-append, drop-append, take_all, ltb, arith,
  ◌↔◌, if◌then◌else◌,
}
use mathlib.Core.Path.{ap₂}
use gas_management.Service.MetaTx.{
  GasModelFields, set_bytes, fields_of, selector_of, decode_gas_model_suffix, no_fields,
}

-- The `k` lowest bytes of a number, the highest first.
unfoldable pub word : ℕ → ℕ → List ℕ
word zero n = []
word (suc k) n = word k (n / 256) ++ (n % 256 ∷ [])

pub length-word : (k n : ℕ) → length (word k n) ≡ k
unfolding word
length-word zero n = refl
length-word (suc k) n =
    omega (arith, length-append (word k (n / 256)) (n % 256 ∷ []), length-word k (n / 256))

set_bytes-append :
    (acc b : ℕ) (xs : List ℕ) → set_bytes acc (xs ++ (b ∷ [])) ≡ set_bytes acc xs * 256 + b
unfolding set_bytes
set_bytes-append acc b [] = refl
set_bytes-append acc b (x ∷ xs) = set_bytes-append (acc * 256 + x) b xs

pub set_bytes-word : (k n : ℕ) → n < 256 ^ k → set_bytes 0 (word k n) ≡ n
unfolding word set_bytes
set_bytes-word zero n h = omega arith
set_bytes-word (suc k) n h =
    set_bytes-append 0 (n % 256) (word k (n / 256))
    ∙ ap (λ q. q * 256 + n % 256) (set_bytes-word k (n / 256) (omega arith))
    ∙ omega arith

-- `abi.encode(address, uint256)`: twelve zeros, the 20 bytes of the address, the 32 of the number.
abbrev pub zeros : List ℕ
zeros = 0 ∷ 0 ∷ 0 ∷ 0 ∷ 0 ∷ 0 ∷ 0 ∷ 0 ∷ 0 ∷ 0 ∷ 0 ∷ 0 ∷ []

unfoldable pub abi_encode : ℕ → ℕ → List ℕ
abi_encode address expiration = zeros ++ (word 20 address ++ word 32 expiration)

length-abi_encode : (a e : ℕ) → length (abi_encode a e) ≡ 64
unfolding abi_encode
length-abi_encode a e =
    omega (arith, length-append (word 20 a) (word 32 e), length-word 20 a, length-word 32 e)

address_part : (a e : ℕ) → take 20 (drop 12 (abi_encode a e)) ≡ word 20 a
unfolding abi_encode
address_part a e = take-append 20 (word 20 a) (word 32 e) (sym (length-word 20 a))

expiration_part : (a e : ℕ) → take 32 (drop 32 (abi_encode a e)) ≡ word 32 e
unfolding abi_encode
expiration_part a e =
    ap (take 32) (drop-append 20 (word 20 a) (word 32 e) (sym (length-word 20 a)))
    ∙ take_all 32 (word 32 e) (sym (length-word 32 e))

abbrev read_back : List ℕ → ℕ → ℕ → GasModelFields
read_back inner a e = record {
  decoded = true;
  node_address = a;
  expiration = e;
  inner_data = inner;
  selector = selector_of inner;
}

fields_of-abi_encode :
    (inner : List ℕ) (a e : ℕ)
    → a < 256 ^ 20
    → e < 256 ^ 32
    → fields_of inner (abi_encode a e) ≡ read_back inner a e
unfolding fields_of
fields_of-abi_encode inner a e ha he =
    ap₂ (read_back inner) (ap (set_bytes 0) (address_part a e) ∙ set_bytes-word 20 a ha)
      (ap (set_bytes 0) (expiration_part a e) ∙ set_bytes-word 32 e he)

-- What `DecodeGasModelSuffix` reads back from data with the suffix of an address and an
-- uint256 appended is exactly that address, that number, and the data before the suffix.

pub decode_gas_model_suffix-abi_encode :
    (inner : List ℕ) (a e : ℕ)
    → a < 256 ^ 20
    → e < 256 ^ 32
    → decode_gas_model_suffix (inner ++ abi_encode a e) ≡ record {
      decoded = true;
      node_address = a;
      expiration = e;
      inner_data = inner;
      selector = selector_of inner;
    }
unfolding decode_gas_model_suffix
decode_gas_model_suffix-abi_encode inner a e ha he =
    let size = length-append inner (abi_encode a e) in
    let suffix = length-abi_encode a e in
    let at_end : (length (inner ++ abi_encode a e) - 64 ≡ length inner) =
      omega (arith, size, suffix) in
    let long : (ltb (length (inner ++ abi_encode a e)) 64 ≡ false) = ground (arith, size, suffix) in
    ap
      (λ b.
        if b
        then no_fields
        else fields_of (take (length (inner ++ abi_encode a e) - 64) (inner ++ abi_encode a e))
            (drop (length (inner ++ abi_encode a e) - 64) (inner ++ abi_encode a e)))
      long
    ∙ ap₂ fields_of
        (take-append (length (inner ++ abi_encode a e) - 64) inner (abi_encode a e) at_end)
        (drop-append (length (inner ++ abi_encode a e) - 64) inner (abi_encode a e) at_end)
    ∙ fields_of-abi_encode inner a e ha he

pub decoded_iff :
    (data' : List ℕ) → ((decode_gas_model_suffix data').decoded ≡ true) ↔ (64 ≤ length data')
unfolding decode_gas_model_suffix fields_of
decoded_iff data' = ground arith
