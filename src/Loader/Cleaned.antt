-- ===== src/Loader/Cleaned.antt =====
-- LoadRuntimeBlocks and LoadValidationBlocks on a source with values of no use.
use gas_management.Base.{◌≡◌, refl, false, [], append-append, append_nil}
use gas_management.Config.{info_level}
use gas_management.Service.Permissioning.{AddressText}
use gas_management.Loader.{
  reorder_enabled_key, reorder_window_ms, reorder_max_inflight_per_user, reorder_receipt_timeout_ms,
  reorder_auto_nonce, reorder_auto_nonce_ticket_ms, dashboard_enabled, dashboard_buffer_size,
  log_level, log_raw_tx, cors_allowed_origins, validation_enforce_node_address,
  validation_enforce_expiration, validation_min_expiration_seconds,
  validation_expiration_tolerance_seconds, security_account_ingress_address,
  security_account_rules_cache_ms, Source, read_bool, read_int, read_level, read_origins,
  read_address,
}
use gas_management.Loader.Blocks.{
  load_reorder, load_dashboard, load_log, load_cors, load_runtime_blocks, load_validation,
  load_permissioning, load_validation_blocks,
}
use gas_management.Loader.Settings.{
  address_value-Reads, bool_value-Reads, cleaned, int_value-Reads, level_value-Reads,
  origins_value-Reads, reports, runtime_keys, validation_keys,
}

module _ (lib : AddressText) (v : Source) where
  load_reorder-cleaned : load_reorder (cleaned lib v) ≡ ((load_reorder v).0, [])
  unfolding load_reorder read_bool read_int
  load_reorder-cleaned =
      rw
        (
          (bool_value-Reads lib reorder_enabled_key false (v reorder_enabled_key)).0,
          (int_value-Reads lib reorder_window_ms 3000 0 (v reorder_window_ms)).0,
          (int_value-Reads lib reorder_max_inflight_per_user 5 1
              (v reorder_max_inflight_per_user)).0,
          (int_value-Reads lib reorder_receipt_timeout_ms 60000 0 (v reorder_receipt_timeout_ms)).0,
          (bool_value-Reads lib reorder_auto_nonce false (v reorder_auto_nonce)).0,
          (int_value-Reads lib reorder_auto_nonce_ticket_ms 2000 0
              (v reorder_auto_nonce_ticket_ms)).0,
        )
        refl

  load_dashboard-cleaned : load_dashboard (cleaned lib v) ≡ ((load_dashboard v).0, [])
  unfolding load_dashboard read_bool read_int
  load_dashboard-cleaned =
      rw
        (
          (bool_value-Reads lib dashboard_enabled false (v dashboard_enabled)).0,
          (int_value-Reads lib dashboard_buffer_size 500 0 (v dashboard_buffer_size)).0,
        )
        refl

  load_log-cleaned : load_log (cleaned lib v) ≡ ((load_log v).0, [])
  unfolding load_log read_bool read_level
  load_log-cleaned =
      rw
        (
          (level_value-Reads lib log_level info_level (v log_level)).0,
          (bool_value-Reads lib log_raw_tx false (v log_raw_tx)).0,
        )
        refl

  load_cors-cleaned : load_cors (cleaned lib v) ≡ ((load_cors v).0, [])
  unfolding load_cors read_origins
  load_cors-cleaned =
      rw ((origins_value-Reads lib cors_allowed_origins (v cors_allowed_origins)).0) refl

  load_validation-cleaned : load_validation (cleaned lib v) ≡ ((load_validation v).0, [])
  unfolding load_validation read_bool read_int
  load_validation-cleaned =
      rw
        (
          (bool_value-Reads lib validation_enforce_node_address false
              (v validation_enforce_node_address)).0,
          (bool_value-Reads lib validation_enforce_expiration false
              (v validation_enforce_expiration)).0,
          (int_value-Reads lib validation_min_expiration_seconds 300 0
              (v validation_min_expiration_seconds)).0,
          (int_value-Reads lib validation_expiration_tolerance_seconds 2 0
              (v validation_expiration_tolerance_seconds)).0,
        )
        refl

  load_permissioning-cleaned :
      load_permissioning lib (cleaned lib v) ≡ ((load_permissioning lib v).0, [])
  unfolding load_permissioning read_address read_int
  load_permissioning-cleaned =
      rw
        (
          (address_value-Reads lib security_account_ingress_address
              (v security_account_ingress_address)).0,
          (int_value-Reads lib security_account_rules_cache_ms 30000 0
              (v security_account_rules_cache_ms)).0,
        )
        refl

  blocks_cleaned :
      (load_runtime_blocks (cleaned lib v) ≡ ((load_runtime_blocks v).0, []))
      × (load_validation_blocks lib (cleaned lib v) ≡ ((load_validation_blocks lib v).0, []))
  unfolding load_runtime_blocks load_validation_blocks
  blocks_cleaned = (
    rw (load_reorder-cleaned, load_dashboard-cleaned, load_log-cleaned, load_cors-cleaned) refl,
    rw (load_validation-cleaned, load_permissioning-cleaned) refl,
  )

  runtime_reports : (load_runtime_blocks v).1 ≡ reports lib v runtime_keys
  unfolding load_runtime_blocks load_reorder load_dashboard load_log load_cors read_bool read_int
      read_level read_origins
  runtime_reports =
      rw
        (
          (bool_value-Reads lib reorder_enabled_key false (v reorder_enabled_key)).1,
          (int_value-Reads lib reorder_window_ms 3000 0 (v reorder_window_ms)).1,
          (int_value-Reads lib reorder_max_inflight_per_user 5 1
              (v reorder_max_inflight_per_user)).1,
          (int_value-Reads lib reorder_receipt_timeout_ms 60000 0 (v reorder_receipt_timeout_ms)).1,
          (bool_value-Reads lib reorder_auto_nonce false (v reorder_auto_nonce)).1,
          (int_value-Reads lib reorder_auto_nonce_ticket_ms 2000 0
              (v reorder_auto_nonce_ticket_ms)).1,
          (bool_value-Reads lib dashboard_enabled false (v dashboard_enabled)).1,
          (int_value-Reads lib dashboard_buffer_size 500 0 (v dashboard_buffer_size)).1,
          (level_value-Reads lib log_level info_level (v log_level)).1,
          (bool_value-Reads lib log_raw_tx false (v log_raw_tx)).1,
          (origins_value-Reads lib cors_allowed_origins (v cors_allowed_origins)).1,
        )
        (simp (append-append, append_nil) refl)

  validation_reports : (load_validation_blocks lib v).1 ≡ reports lib v validation_keys
  unfolding load_validation_blocks load_validation load_permissioning read_bool read_int
      read_address
  validation_reports =
      rw
        (
          (bool_value-Reads lib validation_enforce_node_address false
              (v validation_enforce_node_address)).1,
          (bool_value-Reads lib validation_enforce_expiration false
              (v validation_enforce_expiration)).1,
          (int_value-Reads lib validation_min_expiration_seconds 300 0
              (v validation_min_expiration_seconds)).1,
          (int_value-Reads lib validation_expiration_tolerance_seconds 2 0
              (v validation_expiration_tolerance_seconds)).1,
          (address_value-Reads lib security_account_ingress_address
              (v security_account_ingress_address)).1,
          (int_value-Reads lib security_account_rules_cache_ms 30000 0
              (v security_account_rules_cache_ms)).1,
        )
        (simp (append-append, append_nil) refl)

-- Whatever a source sets: the keys that are reported are those with a value that is of no use for them,
-- each once, with its value and the reason, in the order in which the keys are read. All blocks are
-- the same as from the source without these keys, of which nothing is reported.
pub loads_cleaned :
    (lib : AddressText) (v : Source)
    → (load_runtime_blocks (cleaned lib v) ≡ ((load_runtime_blocks v).0, []))
      × (load_validation_blocks lib (cleaned lib v) ≡ ((load_validation_blocks lib v).0, []))
      × ((load_runtime_blocks v).1 ≡ reports lib v runtime_keys)
      × ((load_validation_blocks lib v).1 ≡ reports lib v validation_keys)
loads_cleaned lib v = (
  (blocks_cleaned lib v).0,
  (blocks_cleaned lib v).1,
  runtime_reports lib v,
  validation_reports lib v,
)
