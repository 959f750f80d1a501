-- ===== src/Examples/Starting.antt =====
-- A service that starts, with the registry of the network as the way to its rules.
use gas_management.Base.{◌≡◌, refl, true, not, none, some, [], ◌∷◌, ◌++◌, Key, is_empty_text}
use gas_management.Config.{Config}
use gas_management.Examples.{ann, small_config}
use gas_management.Examples.Informing.{application}
use gas_management.Service.Tracker.{empty_tracker}
use gas_management.Service.Permissioning.{AddressText}
use gas_management.Service.Start.{
  Surroundings, Starting, init, init_variable, init_slice, key_slice, init_key, lacks_rules,
  with_relay_hub, hub_answer,
}
use gas_management.Service.Start.Rules.{IsStarted, init-IsStarted}

abbrev with_registry : Config
with_registry = record small_config {
  permissioning = record small_config.permissioning { account_ingress_address = ann };
}

abbrev written : AddressText
written = record { is_hex_address = λ text. not (is_empty_text text); hex_to_address = λ text. 8 }

-- 8 and 64 bytes of "1".
abbrev ones : Key
ones = 49 ∷ 49 ∷ 49 ∷ 49 ∷ 49 ∷ 49 ∷ 49 ∷ 49 ∷ []

abbrev key : Key
key = ones ++ (ones ++ (ones ++ (ones ++ (ones ++ (ones ++ (ones ++ ones))))))

abbrev around : Surroundings
around = record {
  writer_key = some (48 ∷ 120 ∷ key);
  is_ecdsa_key = λ text. true;
  relay_hub_of = λ url proxy. some 6;
}

abbrev before : Starting
before = record { application = application; key = []; tracker = empty_tracker none; meta_tx = [] }

abbrev started : Starting
started = record {
  application = record application { relay_hub_contract_address = some 6 };
  key = key;
  tracker = empty_tracker (some with_registry);
  meta_tx = [];
}

starts : init written around with_registry application before ≡ some (none, started)
unfolding init init_variable init_slice key_slice init_key lacks_rules with_relay_hub hub_answer
starts = refl

init-IsStarted_example : IsStarted written around with_registry application started
init-IsStarted_example =
    init-IsStarted written around with_registry application before started refl starts

abbrev unset : Surroundings
unset = record around { writer_key = some (48 ∷ 120 ∷ []) }

short_key_panics : init written unset with_registry application before ≡ none
unfolding init init_variable init_slice key_slice
short_key_panics = refl
