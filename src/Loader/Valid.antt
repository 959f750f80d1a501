-- ===== src/Loader/Valid.antt =====
-- The blocks that LoadRuntimeBlocks and LoadValidationBlocks give, whatever the source.
use gas_management.Base.{
  ℕ, ◌≡◌, ◌≤◌, ◌⊎◌, All, refl, true, false, Option, none, some, List, [], ◌∷◌, Key, arith,
  is_empty_text, trim_space, inl,
}
use gas_management.Service.Permissioning.{AddressText}
use gas_management.Loader.{
  SettingKey, reorder_max_inflight_per_user, cors_allowed_origins, security_account_ingress_address,
  Raw, raw_int, raw_float, raw_text, raw_bool, raw_list, raw_other, Source, int_value, read_int,
  to_origins, cons_origin, origins_or, origins_value, read_origins, address_value, read_address,
}
use gas_management.Loader.Blocks.{
  load_reorder, load_cors, load_runtime_blocks, load_permissioning, load_validation_blocks,
}

int_value_le :
    (o : Option Raw) (key : SettingKey) (def min : ℕ)
    → min ≤ def
    → min ≤ (int_value o key def min).0
int_value_le none key def min h = h
int_value_le (some raw) key def min h = ground arith

-- A text that is not blank.
abbrev pub IsWritten : Key → Type 0
IsWritten text = is_empty_text text ≡ false

abbrev AllWritten : Option (List Key) → Type 0
AllWritten none = Unit {0}
AllWritten (some origins) = All IsWritten origins

cons_origin-AllWritten :
    (origin : Key) (o : Option (List Key)) → AllWritten o → AllWritten (cons_origin origin o)
cons_origin-AllWritten origin none h = tt
cons_origin-AllWritten [] (some origins) h = tt
cons_origin-AllWritten (c ∷ cs) (some origins) h = (refl, h)

to_origins-AllWritten : (values : List (Option Key)) → AllWritten (to_origins values)
unfolding to_origins
to_origins-AllWritten [] = tt
to_origins-AllWritten (none ∷ values) = tt
to_origins-AllWritten (some text ∷ values) =
    cons_origin-AllWritten (trim_space text) (to_origins values) (to_origins-AllWritten values)

origins_or-AllWritten :
    (o : Option (List Key)) (key : SettingKey) (raw : Raw)
    → AllWritten o
    → All IsWritten (origins_or o key raw).0
origins_or-AllWritten none key raw h = tt
origins_or-AllWritten (some origins) key raw h = h

origins_value-AllWritten :
    (o : Option Raw) (key : SettingKey) → All IsWritten (origins_value o key).0
origins_value-AllWritten none key = tt
origins_value-AllWritten (some (raw_list values)) key =
    origins_or-AllWritten (to_origins values) key (raw_list values) (to_origins-AllWritten values)
origins_value-AllWritten (some (raw_int n)) key = tt
origins_value-AllWritten (some (raw_float whole)) key = tt
origins_value-AllWritten (some (raw_text text)) key = tt
origins_value-AllWritten (some (raw_bool b)) key = tt
origins_value-AllWritten (some raw_other) key = tt

-- Nothing, or an address.
abbrev pub IsAddressOrEmpty : AddressText → Key → Type 0
IsAddressOrEmpty lib text = (text ≡ []) ⊎ (lib.is_hex_address text ≡ true)

address_value-IsAddressOrEmpty :
    (lib : AddressText) (o : Option Raw) (key : SettingKey)
    → IsAddressOrEmpty lib (address_value lib o key).0
address_value-IsAddressOrEmpty lib none key = inl refl
address_value-IsAddressOrEmpty lib (some (raw_text text)) key = ground arith
address_value-IsAddressOrEmpty lib (some (raw_int n)) key = inl refl
address_value-IsAddressOrEmpty lib (some (raw_float whole)) key = inl refl
address_value-IsAddressOrEmpty lib (some (raw_list values)) key = inl refl
address_value-IsAddressOrEmpty lib (some (raw_bool b)) key = inl refl
address_value-IsAddressOrEmpty lib (some raw_other) key = inl refl

-- Whatever a source sets: the cap is at least 1, no origin is blank, and the address of the registry is
-- empty or has the form of an address.
pub loads_well_formed :
    (lib : AddressText) (v : Source)
    → (1 ≤ (load_runtime_blocks v).0.reorder.max_inflight_per_user)
      × All IsWritten (load_runtime_blocks v).0.cors.allowed_origins
      × IsAddressOrEmpty lib (load_validation_blocks lib v).0.permissioning.account_ingress_address
unfolding load_runtime_blocks load_reorder load_cors load_validation_blocks load_permissioning
    read_int read_origins read_address
loads_well_formed lib v = (
  int_value_le (v reorder_max_inflight_per_user) reorder_max_inflight_per_user 5 1 (omega arith),
  origins_value-AllWritten (v cors_allowed_origins) cors_allowed_origins,
  address_value-IsAddressOrEmpty lib (v security_account_ingress_address)
      security_account_ingress_address,
)
