-- ===== src/Loader.antt =====
-- model/RuntimeConfig.go: the readers of single keys of the configuration. A source gives the value that
-- viper has under a key, and none where viper says that it is not set.
pub mod Blocks
pub mod Settings
pub mod Cleaned
pub mod Valid
use gas_management.Base.{
  ℕ, Bool, true, false, ◌&&◌, Option, none, some, List, [], ◌∷◌, ◌++◌, Key, map, ltb, if◌then◌else◌,
  is_empty_text, texts_eq, trim_space, atoi, parse_bool,
}
use gas_management.Base.Int.{ℤ, pos, negsuc}
use gas_management.Config.{
  ReorderConfig, DashboardConfig, LogLevel, debug_level, info_level, warn_level, error_level,
  LogConfig, CorsConfig, ValidationConfig, PermissioningConfig, default_reorder_window_ms,
  default_reorder_max_inflight_per_user, default_reorder_receipt_timeout_ms,
  default_reorder_auto_nonce_ticket_ms, default_dashboard_buffer_size,
  default_min_expiration_seconds, default_expiration_tolerance_seconds,
  default_account_rules_cache_ms,
}
use gas_management.Service.Permissioning.{AddressText}
use gas_management.Service.Tracker.Chains.{to_lower}

-- The keys by their names: `reorder_window_ms` is "reorder.windowMs".
pub data SettingKey : Type 0 where
  reorder_enabled_key reorder_window_ms reorder_max_inflight_per_user : SettingKey
  reorder_receipt_timeout_ms reorder_auto_nonce reorder_auto_nonce_ticket_ms : SettingKey
  dashboard_enabled dashboard_buffer_size log_level log_raw_tx : SettingKey
  cors_allowed_origins : SettingKey
  validation_enforce_node_address validation_enforce_expiration : SettingKey
  validation_min_expiration_seconds validation_expiration_tolerance_seconds : SettingKey
  security_account_ingress_address security_account_rules_cache_ms : SettingKey

-- A value by its Go type. An int32 and an int64 are the int of the same number; a float64 is the int
-- that it converts to, or none if it is no whole number. The elements of a list are texts, or not.
pub data Raw : Type 0 where
  raw_int : ℤ → Raw
  raw_float : Option ℤ → Raw
  raw_text : Key → Raw
  raw_bool : Bool → Raw
  raw_list : List (Option Key) → Raw
  raw_other : Raw

abbrev pub Source : Type 0
Source = SettingKey → Option Raw

-- Why a value is of no use.
pub data Objection : Type 0 where
  not_a_bool not_an_integer unknown_level not_a_list not_a_text_origin not_a_text : Objection
  not_an_address : Objection
  below_minimum : ℕ → Objection

pub record DiscardedKey : Type 0 where
  pub key : SettingKey
  pub value : Raw
  pub reason : Objection

-- What a reader gives: the value, and the keys that it adds to `discarded`.
abbrev pub Read : Type 0 → Type 0
Read A = A × List DiscardedKey

abbrev pub discard : {A : Type 0} → A → SettingKey → Raw → Objection → Read A
discard def key raw reason = (def, record { key = key; value = raw; reason = reason } ∷ [])

unfoldable pub to_int : Raw → Option ℤ
to_int (raw_int n) = some n
to_int (raw_float whole) = whole
to_int (raw_text text) = atoi (trim_space text)
to_int (raw_bool b) = none
to_int (raw_list values) = none
to_int raw_other = none

unfoldable pub to_bool : Raw → Option Bool
to_bool (raw_int n) = none
to_bool (raw_float whole) = none
to_bool (raw_text text) = parse_bool (trim_space text)
to_bool (raw_bool b) = some b
to_bool (raw_list values) = none
to_bool raw_other = none

abbrev pub bool_or : Option Bool → SettingKey → Bool → Raw → Read Bool
bool_or none key def raw = discard def key raw not_a_bool
bool_or (some value) key def raw = (value, [])

abbrev pub bool_value : Option Raw → SettingKey → Bool → Read Bool
bool_value none key def = (def, [])
bool_value (some raw) key def = bool_or (to_bool raw) key def raw

-- `readBool`.
unfoldable pub read_bool : Source → SettingKey → Bool → Read Bool
read_bool v key def = bool_value (v key) key def

abbrev pub int_or : Option ℤ → SettingKey → ℕ → ℕ → Raw → Read ℕ
int_or none key def min raw = discard def key raw not_an_integer
int_or (some (negsuc n)) key def min raw = discard def key raw (below_minimum min)
int_or (some (pos n)) key def min raw =
    if ltb n min then discard def key raw (below_minimum min) else (n, [])

abbrev pub int_value : Option Raw → SettingKey → ℕ → ℕ → Read ℕ
int_value none key def min = (def, [])
int_value (some raw) key def min = int_or (to_int raw) key def min raw

-- `readInt`, with a minimum that is not negative.
unfoldable pub read_int : Source → SettingKey → ℕ → ℕ → Read ℕ
read_int v key def min = int_value (v key) key def min

-- The accepted levels: "debug", "info", "warn", "error".
unfoldable pub level_of : Key → Option LogLevel
level_of text =
    if texts_eq text (b'd' ∷ b'e' ∷ b'b' ∷ b'u' ∷ b'g' ∷ [])
    then some debug_level
    else (if texts_eq text (b'i' ∷ b'n' ∷ b'f' ∷ b'o' ∷ [])
        then some info_level
        else (if texts_eq text (b'w' ∷ b'a' ∷ b'r' ∷ b'n' ∷ [])
            then some warn_level
            else (if texts_eq text (b'e' ∷ b'r' ∷ b'r' ∷ b'o' ∷ b'r' ∷ [])
                then some error_level
                else none)))

unfoldable pub to_level : Raw → Option LogLevel
to_level (raw_int n) = none
to_level (raw_float whole) = none
to_level (raw_text text) = level_of (map to_lower (trim_space text))
to_level (raw_bool b) = none
to_level (raw_list values) = none
to_level raw_other = none

abbrev pub level_or : Option LogLevel → SettingKey → LogLevel → Raw → Read LogLevel
level_or none key def raw = discard def key raw unknown_level
level_or (some level) key def raw = (level, [])

abbrev pub level_value : Option Raw → SettingKey → LogLevel → Read LogLevel
level_value none key def = (def, [])
level_value (some raw) key def = level_or (to_level raw) key def raw

-- `readLevel`.
unfoldable pub read_level : Source → SettingKey → LogLevel → Read LogLevel
read_level v key def = level_value (v key) key def

-- The loop of `readOrigins`: none if an element is no text, or blank.
abbrev pub cons_origin : Key → Option (List Key) → Option (List Key)
cons_origin origin none = none
cons_origin origin (some origins) = if is_empty_text origin then none else some (origin ∷ origins)

unfoldable pub to_origins : List (Option Key) → Option (List Key)
to_origins [] = some []
to_origins (none ∷ values) = none
to_origins (some text ∷ values) = cons_origin (trim_space text) (to_origins values)

abbrev pub origins_or : Option (List Key) → SettingKey → Raw → Read (List Key)
origins_or none key raw = discard [] key raw not_a_text_origin
origins_or (some origins) key raw = (origins, [])

abbrev pub origins_value : Option Raw → SettingKey → Read (List Key)
origins_value none key = ([], [])
origins_value (some (raw_int n)) key = discard [] key (raw_int n) not_a_list
origins_value (some (raw_float whole)) key = discard [] key (raw_float whole) not_a_list
origins_value (some (raw_text text)) key = discard [] key (raw_text text) not_a_list
origins_value (some (raw_bool b)) key = discard [] key (raw_bool b) not_a_list
origins_value (some (raw_list values)) key = origins_or (to_origins values) key (raw_list values)
origins_value (some raw_other) key = discard [] key raw_other not_a_list

-- `readOrigins`.
unfoldable pub read_origins : Source → SettingKey → Read (List Key)
read_origins v key = origins_value (v key) key

abbrev pub address_or : AddressText → SettingKey → Raw → Key → Read Key
address_or lib key raw text =
    if is_empty_text text
    then ([], [])
    else (if lib.is_hex_address text then (text, []) else discard [] key raw not_an_address)

abbrev pub address_value : AddressText → Option Raw → SettingKey → Read Key
address_value lib none key = ([], [])
address_value lib (some (raw_int n)) key = discard [] key (raw_int n) not_a_text
address_value lib (some (raw_float whole)) key = discard [] key (raw_float whole) not_a_text
address_value lib (some (raw_text text)) key = address_or lib key (raw_text text) (trim_space text)
address_value lib (some (raw_bool b)) key = discard [] key (raw_bool b) not_a_text
address_value lib (some (raw_list values)) key = discard [] key (raw_list values) not_a_text
address_value lib (some raw_other) key = discard [] key raw_other not_a_text

-- `readAddress`.
unfoldable pub read_address : AddressText → Source → SettingKey → Read Key
read_address lib v key = address_value lib (v key) key
