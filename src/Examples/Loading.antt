-- ===== src/Examples/Loading.antt =====
-- A configuration with values of no use: a window of "3s", a cap of 0, and a blank origin.
use gas_management.Base.{
  ◌≡◌, ◌≤◌, refl, All, true, false, none, some, [], ◌∷◌, Key, trim_space, atoi, parse_bool,
}
use gas_management.Base.Int.{pos, negsuc}
use gas_management.Service.Permissioning.{AddressText}
use gas_management.Service.Tracker.Chains.{to_lower}
use gas_management.Loader.{
  Source, raw_int, raw_text, raw_list, raw_bool, reorder_window_ms, reorder_max_inflight_per_user,
  reorder_enabled_key, cors_allowed_origins, log_level, not_an_integer, below_minimum,
  not_a_text_origin, to_int, to_bool, to_level, level_of, to_origins, read_int, read_bool,
  read_level, read_origins,
}
use gas_management.Loader.Blocks.{
  load_runtime_blocks, load_validation_blocks, load_reorder, load_dashboard, load_log, load_cors,
}
use gas_management.Loader.Settings.{cleaned, reports, runtime_keys, validation_keys}
use gas_management.Loader.Cleaned.{loads_cleaned}
use gas_management.Loader.Valid.{IsWritten, IsAddressOrEmpty, loads_well_formed}

-- "3s", " WARN" and " ".
abbrev bad_window : Key
bad_window = 51 ∷ 115 ∷ []

abbrev warn_text : Key
warn_text = 32 ∷ 87 ∷ 65 ∷ 82 ∷ 78 ∷ []

abbrev blank : Key
blank = 32 ∷ []

abbrev source : Source
source reorder_enabled_key = some (raw_bool true)
source reorder_window_ms = some (raw_text bad_window)
source reorder_max_inflight_per_user = some (raw_int (pos 0))
source log_level = some (raw_text warn_text)
source cors_allowed_origins = some (raw_list (some warn_text ∷ some blank ∷ []))
source _ = none

abbrev hex_like : AddressText
hex_like = record { is_hex_address = λ text. false; hex_to_address = λ text. 0 }

loads_cleaned_example :
    (load_runtime_blocks (cleaned hex_like source) ≡ ((load_runtime_blocks source).0, []))
    × (load_validation_blocks hex_like (cleaned hex_like source)
        ≡ ((load_validation_blocks hex_like source).0, []))
    × ((load_runtime_blocks source).1 ≡ reports hex_like source runtime_keys)
    × ((load_validation_blocks hex_like source).1 ≡ reports hex_like source validation_keys)
loads_cleaned_example = loads_cleaned hex_like source

loads_well_formed_example :
    (1 ≤ (load_runtime_blocks source).0.reorder.max_inflight_per_user)
    × All IsWritten (load_runtime_blocks source).0.cors.allowed_origins
    × IsAddressOrEmpty hex_like
        (load_validation_blocks hex_like source).0.permissioning.account_ingress_address
loads_well_formed_example = loads_well_formed hex_like source

three_discarded :
    (load_runtime_blocks source).1
    ≡ record { key = reorder_window_ms; value = raw_text bad_window; reason = not_an_integer }
      ∷ record {
        key = reorder_max_inflight_per_user;
        value = raw_int (pos 0);
        reason = below_minimum 1;
      }
      ∷ record {
        key = cors_allowed_origins;
        value = raw_list (some warn_text ∷ some blank ∷ []);
        reason = not_a_text_origin;
      }
      ∷ []
unfolding load_runtime_blocks load_reorder load_dashboard load_log load_cors read_bool read_int
    read_level read_origins to_int to_bool to_level level_of to_origins trim_space atoi to_lower
three_discarded = refl

negative : atoi (45 ∷ 49 ∷ 50 ∷ []) ≡ some (negsuc 11)
unfolding atoi
negative = refl

yes : parse_bool (84 ∷ []) ≡ some true
unfolding parse_bool
yes = refl
