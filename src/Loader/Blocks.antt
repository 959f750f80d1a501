-- ===== src/Loader/Blocks.antt =====
-- LoadRuntimeBlocks and LoadValidationBlocks of model/RuntimeConfig.go, with the defaults of the blocks.
use gas_management.Base.{false, List, [], ◌++◌}
use gas_management.Config.{
  ReorderConfig, DashboardConfig, info_level, LogConfig, CorsConfig, ValidationConfig,
  PermissioningConfig, default_reorder_window_ms, default_reorder_max_inflight_per_user,
  default_reorder_receipt_timeout_ms, default_reorder_auto_nonce_ticket_ms,
  default_dashboard_buffer_size, default_min_expiration_seconds,
  default_expiration_tolerance_seconds, default_account_rules_cache_ms,
}
use gas_management.Service.Permissioning.{AddressText}
use gas_management.Loader.{
  Source, DiscardedKey, read_bool, read_int, read_level, read_origins, read_address,
  reorder_enabled_key, reorder_window_ms, reorder_max_inflight_per_user, reorder_receipt_timeout_ms,
  reorder_auto_nonce, reorder_auto_nonce_ticket_ms, dashboard_enabled, dashboard_buffer_size,
  log_level, log_raw_tx, cors_allowed_origins, validation_enforce_node_address,
  validation_enforce_expiration, validation_min_expiration_seconds,
  validation_expiration_tolerance_seconds, security_account_ingress_address,
  security_account_rules_cache_ms,
}

abbrev pub default_reorder_config : ReorderConfig
default_reorder_config = record {
  enabled = false;
  window_ms = default_reorder_window_ms;
  max_inflight_per_user = default_reorder_max_inflight_per_user;
  receipt_timeout_ms = default_reorder_receipt_timeout_ms;
  auto_nonce = false;
  auto_nonce_ticket_ms = default_reorder_auto_nonce_ticket_ms;
}

abbrev pub default_dashboard_config : DashboardConfig
default_dashboard_config = record { enabled = false; buffer_size = default_dashboard_buffer_size }

abbrev pub default_log_config : LogConfig
default_log_config = record { level = info_level; raw_tx = false }

abbrev pub default_validation_config : ValidationConfig
default_validation_config = record {
  enforce_node_address = false;
  enforce_expiration = false;
  min_expiration_seconds = default_min_expiration_seconds;
  expiration_tolerance_seconds = default_expiration_tolerance_seconds;
}

abbrev pub default_permissioning_config : PermissioningConfig
default_permissioning_config = record {
  account_ingress_address = [];
  account_rules_cache_ms = default_account_rules_cache_ms;
}

pub record RuntimeBlocks : Type 0 where
  pub reorder : ReorderConfig
  pub dashboard : DashboardConfig
  pub log : LogConfig
  pub cors : CorsConfig

pub record ValidationBlocks : Type 0 where
  pub validation : ValidationConfig
  pub permissioning : PermissioningConfig

unfoldable pub load_reorder : Source → ReorderConfig × List DiscardedKey
load_reorder v =
    let def = default_reorder_config in
    let (enabled, d1) = read_bool v reorder_enabled_key def.enabled in
    let (window_ms, d2) = read_int v reorder_window_ms def.window_ms 0 in
    let (max_inflight, d3) = read_int v reorder_max_inflight_per_user def.max_inflight_per_user 1 in
    let (timeout, d4) = read_int v reorder_receipt_timeout_ms def.receipt_timeout_ms 0 in
    let (auto_nonce, d5) = read_bool v reorder_auto_nonce def.auto_nonce in
    let (ticket, d6) = read_int v reorder_auto_nonce_ticket_ms def.auto_nonce_ticket_ms 0 in
    (
      record {
        enabled = enabled;
        window_ms = window_ms;
        max_inflight_per_user = max_inflight;
        receipt_timeout_ms = timeout;
        auto_nonce = auto_nonce;
        auto_nonce_ticket_ms = ticket;
      },
      d1 ++ d2 ++ d3 ++ d4 ++ d5 ++ d6,
    )

unfoldable pub load_dashboard : Source → DashboardConfig × List DiscardedKey
load_dashboard v =
    let def = default_dashboard_config in
    let (enabled, d1) = read_bool v dashboard_enabled def.enabled in
    let (size, d2) = read_int v dashboard_buffer_size def.buffer_size 0 in
    (record { enabled = enabled; buffer_size = size }, d1 ++ d2)

unfoldable pub load_log : Source → LogConfig × List DiscardedKey
load_log v =
    let def = default_log_config in
    let (level, d1) = read_level v log_level def.level in
    let (raw_tx, d2) = read_bool v log_raw_tx def.raw_tx in
    (record { level = level; raw_tx = raw_tx }, d1 ++ d2)

unfoldable pub load_cors : Source → CorsConfig × List DiscardedKey
load_cors v =
    let (origins, discarded) = read_origins v cors_allowed_origins in
    (record { allowed_origins = origins }, discarded)

-- `LoadRuntimeBlocks`.
unfoldable pub load_runtime_blocks : Source → RuntimeBlocks × List DiscardedKey
load_runtime_blocks v =
    let (reorder, d1) = load_reorder v in
    let (dashboard, d2) = load_dashboard v in
    let (log, d3) = load_log v in
    let (cors, d4) = load_cors v in
    (
      record { reorder = reorder; dashboard = dashboard; log = log; cors = cors },
      d1 ++ d2 ++ d3 ++ d4,
    )

unfoldable pub load_validation : Source → ValidationConfig × List DiscardedKey
load_validation v =
    let def = default_validation_config in
    let (node, d1) = read_bool v validation_enforce_node_address def.enforce_node_address in
    let (expiration, d2) = read_bool v validation_enforce_expiration def.enforce_expiration in
    let (min, d3) = read_int v validation_min_expiration_seconds def.min_expiration_seconds 0 in
    let (tolerance, d4) =
      read_int v validation_expiration_tolerance_seconds def.expiration_tolerance_seconds 0 in
    (
      record {
        enforce_node_address = node;
        enforce_expiration = expiration;
        min_expiration_seconds = min;
        expiration_tolerance_seconds = tolerance;
      },
      d1 ++ d2 ++ d3 ++ d4,
    )

unfoldable pub load_permissioning : AddressText → Source → PermissioningConfig × List DiscardedKey
load_permissioning lib v =
    let def = default_permissioning_config in
    let (ingress, d1) = read_address lib v security_account_ingress_address in
    let (cache, d2) = read_int v security_account_rules_cache_ms def.account_rules_cache_ms 0 in
    (record { account_ingress_address = ingress; account_rules_cache_ms = cache }, d1 ++ d2)

-- `LoadValidationBlocks`.
unfoldable pub load_validation_blocks : AddressText → Source → ValidationBlocks × List DiscardedKey
load_validation_blocks lib v =
    let (validation, d1) = load_validation v in
    let (permissioning, d2) = load_permissioning lib v in
    (record { validation = validation; permissioning = permissioning }, d1 ++ d2)
