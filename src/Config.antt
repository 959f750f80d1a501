-- ===== src/Config.antt =====
-- model/Config.go: the blocks of the configuration that the modelled code reads. The blocks that
-- the loader builds hold no negative number; `nonceCacheTTL` comes unchecked from the file.
use gas_management.Base.{ℕ, Bool, Key, List}
use gas_management.Base.Int.{ℤ}

pub record ReorderConfig : Type 0 where
  pub enabled : Bool
  pub window_ms : ℕ
  pub max_inflight_per_user : ℕ
  pub receipt_timeout_ms : ℕ
  pub auto_nonce : Bool
  pub auto_nonce_ticket_ms : ℕ

pub record ValidationConfig : Type 0 where
  pub enforce_node_address : Bool
  pub enforce_expiration : Bool
  pub min_expiration_seconds : ℕ
  pub expiration_tolerance_seconds : ℕ

-- A text is its bytes; an address that is not written is the empty text.
pub record SecurityConfig : Type 0 where
  pub permissions_enabled : Bool
  pub account_contract_address : Key

pub record PermissioningConfig : Type 0 where
  pub account_ingress_address : Key
  pub account_rules_cache_ms : ℕ

pub record DashboardConfig : Type 0 where
  pub enabled : Bool
  pub buffer_size : ℕ

pub data LogLevel : Type 0 where
  debug_level info_level warn_level error_level : LogLevel

pub record LogConfig : Type 0 where
  pub level : LogLevel
  pub raw_tx : Bool

pub record CorsConfig : Type 0 where
  pub allowed_origins : List Key

pub record Config : Type 0 where
  pub nonce_cache_ttl : ℤ
  pub security : SecurityConfig
  pub reorder : ReorderConfig
  pub validation : ValidationConfig
  pub permissioning : PermissioningConfig

-- Durations in nanoseconds, as time.Duration has them.
abbrev pub millisecond : ℕ
millisecond = 1000000

abbrev pub second : ℕ
second = 1000000000

-- model/RuntimeConfig.go: the default values.
abbrev pub default_reorder_window_ms : ℕ
default_reorder_window_ms = 3000

abbrev pub default_reorder_max_inflight_per_user : ℕ
default_reorder_max_inflight_per_user = 5

abbrev pub default_reorder_receipt_timeout_ms : ℕ
default_reorder_receipt_timeout_ms = 60000

abbrev pub default_reorder_auto_nonce_ticket_ms : ℕ
default_reorder_auto_nonce_ticket_ms = 2000

abbrev pub default_account_rules_cache_ms : ℕ
default_account_rules_cache_ms = 30000

abbrev pub default_dashboard_buffer_size : ℕ
default_dashboard_buffer_size = 500

abbrev pub default_min_expiration_seconds : ℕ
default_min_expiration_seconds = 300

abbrev pub default_expiration_tolerance_seconds : ℕ
default_expiration_tolerance_seconds = 2
