-- ===== src/Service/MetaTx.antt =====
-- service/metatx.go: the suffix that the gas model adds to the data of a metatx. A byte is a number
-- below 256; an address is the number that its 20 bytes spell, where the code prints it in hex.
pub mod Suffix
use gas_management.Base.{
  ℕ, ◌+◌, ◌-◌, ◌*◌, ◌/◌, ◌%◌, Bool, true, false, Option, none, some, List, [], ◌∷◌, ◌++◌, length,
  take, drop, ltb, leb, if◌then◌else◌,
}
use gas_management.Base.Int.{u64_mod}

abbrev pub gas_model_suffix_bytes : ℕ
gas_model_suffix_bytes = 64

pub record GasModelFields : Type 0 where
  pub decoded : Bool
  pub node_address : ℕ
  pub expiration : ℕ
  pub inner_data : List ℕ
  pub selector : List ℕ

-- The zero value: nothing could be read.
abbrev pub no_fields : GasModelFields
no_fields = record {
  decoded = false;
  node_address = 0;
  expiration = 0;
  inner_data = [];
  selector = [];
}

-- `SetBytes`: the number that the bytes spell, the highest first, below those of `acc`.
unfoldable pub set_bytes : ℕ → List ℕ → ℕ
set_bytes acc [] = acc
set_bytes acc (b ∷ bs) = set_bytes (acc * 256 + b) bs

-- `hex.EncodeToString`, in ASCII.
abbrev pub hex_digit : ℕ → ℕ
hex_digit n = if ltb n 10 then n + 48 else n + 87

unfoldable pub hex_encode : List ℕ → List ℕ
hex_encode [] = []
hex_encode (b ∷ bs) = hex_digit (b / 16) ∷ hex_digit (b % 16) ∷ hex_encode bs

unfoldable pub selector_of : List ℕ → List ℕ
selector_of inner = if leb 4 (length inner) then 48 ∷ 120 ∷ hex_encode (take 4 inner) else []

unfoldable pub fields_of : List ℕ → List ℕ → GasModelFields
fields_of inner suffix = record {
  decoded = true;
  node_address = set_bytes 0 (take 20 (drop 12 suffix));
  expiration = set_bytes 0 (take 32 (drop 32 suffix));
  inner_data = inner;
  selector = selector_of inner;
}

unfoldable pub decode_gas_model_suffix : List ℕ → GasModelFields
decode_gas_model_suffix data' =
    let n = length data' - gas_model_suffix_bytes in
    if ltb (length data') gas_model_suffix_bytes
    then no_fields
    else fields_of (take n data') (drop n data')

-- The expiration in unix seconds, if it is an uint64.
unfoldable pub expiration_seconds : GasModelFields → Option ℕ
expiration_seconds fields = elim fields.decoded [
  | false ↦ none
  | true ↦ if ltb fields.expiration u64_mod then some fields.expiration else none
]
