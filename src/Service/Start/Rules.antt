-- ===== src/Service/Start/Rules.antt =====
-- What a service that starts has, and can ask for its rules.
use gas_management.Base.{
  ℕ, ◌≡◌, refl, ◌⊎◌, ◌≢◌, subst, Bool-cases, inl, inr, empty_map, length, take, drop, ltb, ◌≤◌,
  true, false, not, ◌&&◌, Bool, Option, none, some, [], ◌∷◌, Key, arith, if◌then◌else◌,
}
use gas_management.Config.{Config}
use gas_management.Service.Permissioning.{
  AddressText, is_written, configured_rules_address, ingress_address,
}
use gas_management.Service.Info.{Application}
use gas_management.Service.Start.{
  Surroundings, Starting, lacks_rules, key_slice, hub_answer, with_relay_hub, init_key, init_slice,
  init_variable, init, with_key, with_config,
}

-- The check of permissions is off, or there is an address to find the rules by.
abbrev pub HasRules : AddressText → Config → Type 0
HasRules lib config =
    (config.security.permissions_enabled ≡ false)
    ⊎ (configured_rules_address lib (some config) ≢ none)
    ⊎ (ingress_address lib (some config) ≢ none)

address_of-text :
    (is_hex : Key → Bool) (n m : ℕ) (written ingress : Key)
    → is_hex [] ≡ false
    → (not (is_hex written) && not (is_hex ingress)) ≡ false
    → ((if is_written written && is_hex written then some n else none) ≢ none)
      ⊎ ((if is_written ingress then some m else none) ≢ none)
address_of-text is_hex n m [] [] h e = ground arith
address_of-text is_hex n m [] (c ∷ cs) h e = ground arith
address_of-text is_hex n m (c ∷ cs) [] h e = ground arith
address_of-text is_hex n m (b ∷ bs) (c ∷ cs) h e = ground arith

lacks_rules-HasRules :
    (lib : AddressText) (config : Config)
    → lib.is_hex_address [] ≡ false
    → lacks_rules lib config ≡ false
    → HasRules lib config
unfolding lacks_rules configured_rules_address ingress_address
lacks_rules-HasRules lib config h e = elim (Bool-cases config.security.permissions_enabled) [
  | inl on ↦ inr (
      address_of-text lib.is_hex_address
        (lib.hex_to_address config.security.account_contract_address)
        (lib.hex_to_address config.permissioning.account_ingress_address)
        config.security.account_contract_address config.permissioning.account_ingress_address h
        (ground (arith, on)))
  | inr off ↦ inl off
]

-- The key is 64 bytes of the variable WRITER_KEY, which has them after two others.
abbrev pub IsWriterKey : Surroundings → Key → Type 0
IsWriterKey around key =
    (text : Key) × (around.writer_key ≡ some text)
    × (66 ≤ length text)
    × (key ≡ take 64 (drop 2 text))

-- What the service has that starts.
abbrev pub IsStarted : AddressText → Surroundings → Config → Application → Starting → Type 0
IsStarted lib around config application t =
    IsWriterKey around t.key
    × (around.is_ecdsa_key t.key ≡ true)
    × (t.application.relay_hub_contract_address
        ≡ around.relay_hub_of application.node_url application.contract_address)
    × (t.application.relay_hub_contract_address ≢ none)
    × (t.tracker.config ≡ some config)
    × (t.tracker.senders ≡ empty_map)
    × (t.meta_tx ≡ [])
    × HasRules lib config

hub_answer-starts :
    (hub : Option ℕ) (s t : Starting) → hub_answer hub s ≡ (none, t) → (hub ≢ none) × (s ≡ t)
unfolding hub_answer
hub_answer-starts hub s t e = ground arith

-- The state that the last step leaves, with the hub that the proxy names.
abbrev last_state : Option ℕ → Key → Starting → Starting
last_state hub key s =
    let t = with_key key s in
    record t { application = record t.application { relay_hub_contract_address = hub } }

init_key-starts :
    (lib : AddressText) (around : Surroundings) (config : Config) (key : Key) (s t : Starting)
    → init_key lib around config key s ≡ (none, t)
    → let hub = around.relay_hub_of s.application.node_url s.application.contract_address in
      (around.is_ecdsa_key key ≡ true)
      × (lacks_rules lib config ≡ false)
      × (hub ≢ none)
      × (last_state hub key s ≡ t)
unfolding init_key with_relay_hub
init_key-starts lib around config key s t e = ground (
  arith,
  hub_answer-starts (around.relay_hub_of s.application.node_url s.application.contract_address)
      (last_state (around.relay_hub_of s.application.node_url s.application.contract_address) key s)
      t,
)

key_slice-IsWriterKey :
    (around : Surroundings) (text key : Key)
    → around.writer_key ≡ some text
    → key_slice text ≡ some key
    → IsWriterKey around key
unfolding key_slice
key_slice-IsWriterKey around text key w e = elim (Bool-cases (ltb (length text) 66)) [
  | inl short ↦ absurd (ground (arith, e))
  | inr long ↦ (text, w, ground (arith, long), ground (arith, long, e))
]

init_key-IsStarted :
    (lib : AddressText) (around : Surroundings) (config : Config) (application : Application)
    (key : Key) (s t : Starting)
    → lib.is_hex_address [] ≡ false
    → IsWriterKey around key
    → init_key lib around config key (with_config config application s) ≡ (none, t)
    → IsStarted lib around config application t
init_key-IsStarted lib around config application key s t h k e =
    let w = init_key-starts lib around config key (with_config config application s) t e in
    subst (λ u. IsStarted lib around config application u) w.3
      (k, w.0, refl, w.2, refl, refl, refl, lacks_rules-HasRules lib config h w.1)

init_slice-IsStarted :
    (lib : AddressText) (around : Surroundings) (config : Config) (application : Application)
    (o : Option Key) (s t : Starting)
    → lib.is_hex_address [] ≡ false
    → ((key : Key) → o ≡ some key → IsWriterKey around key)
    → init_slice lib around config o (with_config config application s) ≡ some (none, t)
    → IsStarted lib around config application t
unfolding init_slice
init_slice-IsStarted lib around config application none s t h k e = ground arith
init_slice-IsStarted lib around config application (some key) s t h k e =
    init_key-IsStarted lib around config application key s t h (k key refl) (ground arith)

init_variable-IsStarted :
    (lib : AddressText) (around : Surroundings) (config : Config) (application : Application)
    (o : Option Key) (s t : Starting)
    → lib.is_hex_address [] ≡ false
    → around.writer_key ≡ o
    → init_variable lib around config o (with_config config application s) ≡ some (none, t)
    → IsStarted lib around config application t
unfolding init_variable
init_variable-IsStarted lib around config application none s t h w e = ground arith
init_variable-IsStarted lib around config application (some text) s t h w e =
    init_slice-IsStarted lib around config application (key_slice text) s t h
      (λ key k. key_slice-IsWriterKey around text key w k) e

-- A service that Init starts: its key is 64 bytes of WRITER_KEY, after the first two, and one of ECDSA;
-- its hub is the one that the proxy of its configuration names; nothing is in flight or remembered; and
-- the check of permissions is off, or there is an address of the rules, or of the registry that names
-- them, as the resolution of the rules reads it. The empty text is no address.
pub init-IsStarted :
    (lib : AddressText) (around : Surroundings) (config : Config) (application : Application)
    (s t : Starting)
    → lib.is_hex_address [] ≡ false
    → init lib around config application s ≡ some (none, t)
    → IsStarted lib around config application t
unfolding init
init-IsStarted lib around config application s t h e =
    init_variable-IsStarted lib around config application around.writer_key s t h refl e
