-- ===== src/Loader/Settings.antt =====
-- Each key of the configuration by itself: which values are of use for it, and what its reader does
-- with the others.
use gas_management.Base.{
  ℕ, ◌≡◌, refl, Bool, Option, none, some, List, [], ◌∷◌, ◌++◌, ltb, arith, if◌then◌else◌,
  is_empty_text, trim_space,
}
use gas_management.Base.Int.{ℤ, pos, negsuc}
use gas_management.Config.{LogLevel}
use gas_management.Service.Permissioning.{AddressText}
use gas_management.Loader.{
  SettingKey, reorder_enabled_key, reorder_window_ms, reorder_max_inflight_per_user,
  reorder_receipt_timeout_ms, reorder_auto_nonce, reorder_auto_nonce_ticket_ms, dashboard_enabled,
  dashboard_buffer_size, log_level, log_raw_tx, cors_allowed_origins,
  validation_enforce_node_address, validation_enforce_expiration, validation_min_expiration_seconds,
  validation_expiration_tolerance_seconds, security_account_ingress_address,
  security_account_rules_cache_ms, Raw, Read, raw_int, raw_float, raw_text, raw_bool, raw_list,
  raw_other, Source, Objection, not_a_bool, not_an_integer, unknown_level, not_a_list,
  not_a_text_origin, not_a_text, not_an_address, below_minimum, DiscardedKey, to_int, to_bool,
  bool_value, int_value, to_level, level_value, to_origins, origins_value, address_value,
}

-- What a key is read as, with the minimum of a number.
pub data Setting : Type 0 where
  bool_setting level_setting origins_setting address_setting : Setting
  int_setting : ℕ → Setting

abbrev pub setting_of : SettingKey → Setting
setting_of reorder_enabled_key = bool_setting
setting_of reorder_window_ms = int_setting 0
setting_of reorder_max_inflight_per_user = int_setting 1
setting_of reorder_receipt_timeout_ms = int_setting 0
setting_of reorder_auto_nonce = bool_setting
setting_of reorder_auto_nonce_ticket_ms = int_setting 0
setting_of dashboard_enabled = bool_setting
setting_of dashboard_buffer_size = int_setting 0
setting_of log_level = level_setting
setting_of log_raw_tx = bool_setting
setting_of cors_allowed_origins = origins_setting
setting_of validation_enforce_node_address = bool_setting
setting_of validation_enforce_expiration = bool_setting
setting_of validation_min_expiration_seconds = int_setting 0
setting_of validation_expiration_tolerance_seconds = int_setting 0
setting_of security_account_ingress_address = address_setting
setting_of security_account_rules_cache_ms = int_setting 0

abbrev pub unless_some : {A : Type 0} → Option A → Objection → Option Objection
unless_some none reason = some reason
unless_some (some a) reason = none

abbrev pub below : ℕ → Option ℤ → Option Objection
below min none = some not_an_integer
below min (some (negsuc n)) = some (below_minimum min)
below min (some (pos n)) = if ltb n min then some (below_minimum min) else none

-- Why a value is of no use as such a setting, if it is not.
abbrev pub objection : AddressText → Setting → Raw → Option Objection
objection lib bool_setting raw = unless_some (to_bool raw) not_a_bool
objection lib (int_setting min) raw = below min (to_int raw)
objection lib level_setting raw = unless_some (to_level raw) unknown_level
objection lib origins_setting (raw_list values) = unless_some (to_origins values) not_a_text_origin
objection lib origins_setting raw = some not_a_list
objection lib address_setting (raw_text text) =
    let t = trim_space text in
    if is_empty_text t then none else (if lib.is_hex_address t then none else some not_an_address)
objection lib address_setting raw = some not_a_text

abbrev pub cleaned_by : Option Objection → Raw → Option Raw
cleaned_by none raw = some raw
cleaned_by (some reason) raw = none

abbrev pub cleaned_value : AddressText → Setting → Option Raw → Option Raw
cleaned_value lib setting none = none
cleaned_value lib setting (some raw) = cleaned_by (objection lib setting raw) raw

-- The source without the keys whose value is of no use.
abbrev pub cleaned : AddressText → Source → Source
cleaned lib v key = cleaned_value lib (setting_of key) (v key)

abbrev pub reported : Option Objection → SettingKey → Raw → List DiscardedKey
reported none key raw = []
reported (some reason) key raw = record { key = key; value = raw; reason = reason } ∷ []

abbrev pub report : AddressText → Setting → SettingKey → Option Raw → List DiscardedKey
report lib setting key none = []
report lib setting key (some raw) = reported (objection lib setting raw) key raw

-- The report on these keys, in this order.
abbrev pub reports : AddressText → Source → List SettingKey → List DiscardedKey
reports lib v [] = []
reports lib v (key ∷ keys) = report lib (setting_of key) key (v key) ++ reports lib v keys

-- What a reader of a setting of this kind does.
abbrev pub Reads :
    {A : Type 0} → AddressText → Setting → SettingKey → (Option Raw → Read A) → Type 0
Reads lib setting key read =
    (o : Option Raw)
    → (read (cleaned_value lib setting o) ≡ ((read o).0, []))
      × ((read o).1 ≡ report lib setting key o)

-- The keys of each loader, in the order in which they are read.
abbrev pub runtime_keys : List SettingKey
runtime_keys =
    reorder_enabled_key ∷ reorder_window_ms ∷ reorder_max_inflight_per_user
    ∷ reorder_receipt_timeout_ms ∷ reorder_auto_nonce ∷ reorder_auto_nonce_ticket_ms
    ∷ dashboard_enabled ∷ dashboard_buffer_size ∷ log_level ∷ log_raw_tx ∷ cors_allowed_origins ∷ []

abbrev pub validation_keys : List SettingKey
validation_keys =
    validation_enforce_node_address ∷ validation_enforce_expiration
    ∷ validation_min_expiration_seconds ∷ validation_expiration_tolerance_seconds
    ∷ security_account_ingress_address ∷ security_account_rules_cache_ms ∷ []

pub bool_value-Reads :
    (lib : AddressText) (key : SettingKey) (def : Bool)
    → Reads lib bool_setting key (λ o. bool_value o key def)
bool_value-Reads lib key def none = (refl, refl)
bool_value-Reads lib key def (some raw) = ground arith

pub int_value-Reads :
    (lib : AddressText) (key : SettingKey) (def min : ℕ)
    → Reads lib (int_setting min) key (λ o. int_value o key def min)
int_value-Reads lib key def min none = (refl, refl)
int_value-Reads lib key def min (some raw) = ground arith

pub level_value-Reads :
    (lib : AddressText) (key : SettingKey) (def : LogLevel)
    → Reads lib level_setting key (λ o. level_value o key def)
level_value-Reads lib key def none = (refl, refl)
level_value-Reads lib key def (some raw) = ground arith

pub origins_value-Reads :
    (lib : AddressText) (key : SettingKey)
    → Reads lib origins_setting key (λ o. origins_value o key)
origins_value-Reads lib key none = (refl, refl)
origins_value-Reads lib key (some (raw_list values)) = ground arith
origins_value-Reads lib key (some (raw_int n)) = (refl, refl)
origins_value-Reads lib key (some (raw_float whole)) = (refl, refl)
origins_value-Reads lib key (some (raw_text text)) = (refl, refl)
origins_value-Reads lib key (some (raw_bool b)) = (refl, refl)
origins_value-Reads lib key (some raw_other) = (refl, refl)

pub address_value-Reads :
    (lib : AddressText) (key : SettingKey)
    → Reads lib address_setting key (λ o. address_value lib o key)
address_value-Reads lib key none = (refl, refl)
address_value-Reads lib key (some (raw_text text)) = ground arith
address_value-Reads lib key (some (raw_int n)) = (refl, refl)
address_value-Reads lib key (some (raw_float whole)) = (refl, refl)
address_value-Reads lib key (some (raw_list values)) = (refl, refl)
address_value-Reads lib key (some (raw_bool b)) = (refl, refl)
address_value-Reads lib key (some raw_other) = (refl, refl)
