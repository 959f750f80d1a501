-- ===== src/Service/Permissioning/Fresh.antt =====
-- Where what AccountPermitted says of an account comes from.
use gas_management.Base.{
  ℕ, ◌+◌, ◌<◌, ◌≡◌, ◌↔◌, refl, sym, ap, subst, ◌∙◌, ◌⊎◌, inl, inr, Bool, true, false, Option, none,
  some, List, [], ◌∷◌, ltb, ◌==◌, arith, Bool-cases, if◌then◌else◌,
}
use gas_management.Config.{Config}
use gas_management.Service.Rejection.{Result, ok, err, rules_unresolved}
use gas_management.Service.Permissioning.{
  Permits, AccountRules, RulesNode, AddressText, cached, remember, entry_at, rules_cache_ttl,
  permissions_enabled, without_rules, ask_contract, cached_or_ask, permitted_with,
  account_permitted, resolve_rules, from_registry, from_ingress, resolve_with, resolve_connected,
  keep_configured, configured_rules_address, ingress_address,
}

-- An answer of the contract of rules: the account, the value, and the time it was read at.
pub record Said : Type 0 where
  pub account : ℕ
  pub permitted : Bool
  pub at : ℕ

-- The contract said this of the account, less than the time of the cache before `now`.
abbrev pub SaidLately : Option Config → ℕ → Bool → ℕ → List Said → Type 0
SaidLately config account permitted now [] = ⊥
SaidLately config account permitted now (said ∷ before) =
    ((said.account ≡ account)
      × (said.permitted ≡ permitted)
      × (now < said.at + rules_cache_ttl config))
    ⊎ SaidLately config account permitted now before

-- What an ask adds to the answers of the contract: its answer, if the contract was asked.
abbrev pub heard_from : Option Bool → ℕ → ℕ → Result Bool → List Said → List Said
heard_from (some permitted) account later answer before = before
heard_from none account later (err cause) before = before
heard_from none account later (ok permitted) before =
    record { account = account; permitted = permitted; at = later } ∷ before

abbrev pub heard_with : Option AccountRules → ℕ → ℕ → ℕ → Result Bool → List Said → List Said
heard_with none account now later answer before = before
heard_with (some rules) account now later answer before =
    heard_from (cached rules account now) account later answer before

-- The states of a service, with the answers of the contract so far: the rules are resolved or there
-- are none, and after that any requests come in any order; what is known of the node is written too.
pub data Reachable (config : Option Config) : Permits → List Said → Type 0 where
  unresolved : (s : Permits) → s.rules ≡ none → Reachable config s []
  resolves :
      (s : Permits) (lib : AddressText) (node : RulesNode)
      → s.rules ≡ (resolve_rules lib config node).0
      → Reachable config s []
  asks :
      (s : Permits) (before : List Said) (account now later : ℕ) (answer : Result Bool)
      → Reachable config s before
      → Reachable config
          (account_permitted config s account now later answer).1
          (heard_with s.rules account now later answer before)
  notes :
      (s : Permits) (before : List Said) (node : Option Bool)
      → Reachable config s before
      → Reachable config (record s { node_permitted = node }) before

-- Each entry of the cache is an answer of the contract, until its time.
CacheIsSaid : Option Config → Option AccountRules → List Said → Type 0
CacheIsSaid config rules before =
    (r : AccountRules) (account now : ℕ) (permitted : Bool)
    → rules ≡ some r
    → cached r account now ≡ some permitted
    → SaidLately config account permitted now before

cached-remember :
    (rules : AccountRules) (account other now until : ℕ) (permitted : Bool)
    → cached (remember rules account permitted until) other now ≡ (
        if other == account
        then (if ltb now until then some permitted else none)
        else cached rules other now)
unfolding cached remember
cached-remember rules account other now until permitted = ground arith

remember-CacheIsSaid :
    (config : Option Config) (rules : AccountRules) (before : List Said) (account later : ℕ)
    (permitted : Bool)
    → CacheIsSaid config (some rules) before
    → CacheIsSaid config
        (some (remember rules account permitted (later + rules_cache_ttl config)))
        (record { account = account; permitted = permitted; at = later } ∷ before)
unfolding CacheIsSaid
remember-CacheIsSaid config rules before account later permitted h r other now p e c =
    let until = later + rules_cache_ttl config in
    let same_rules : (remember rules account permitted until ≡ r) = cc in
    let read =
      sym (cached-remember rules account other now until permitted)
      ∙ ap (λ q. cached q other now) same_rules
      ∙ c in
    elim (Bool-cases (other == account)) [
      | inl same ↦ inl (ground (arith, read))
      | inr different ↦ inr (h rules other now p refl (ground (arith, read)))
    ]

cached_or_ask-CacheIsSaid :
    (known : Option Bool) (config : Option Config) (s : Permits) (rules : AccountRules)
    (before : List Said) (account later : ℕ) (answer : Result Bool)
    → s.rules ≡ some rules
    → CacheIsSaid config (some rules) before
    → CacheIsSaid config
        (cached_or_ask known config s rules account later answer).1.rules
        (heard_from known account later answer before)
unfolding cached_or_ask ask_contract
cached_or_ask-CacheIsSaid (some p) config s rules before account later answer e h =
    subst (λ o. CacheIsSaid config o before) (sym e) h
cached_or_ask-CacheIsSaid none config s rules before account later (err cause) e h =
    subst (λ o. CacheIsSaid config o before) (sym e) h
cached_or_ask-CacheIsSaid none config s rules before account later (ok p) e h =
    remember-CacheIsSaid config rules before account later p h

ask-CacheIsSaid :
    (o : Option AccountRules) (config : Option Config) (s : Permits) (before : List Said)
    (account now later : ℕ) (answer : Result Bool)
    → s.rules ≡ o
    → CacheIsSaid config o before
    → CacheIsSaid config
        (permitted_with o config s account now later answer).1.rules
        (heard_with o account now later answer before)
ask-CacheIsSaid none config s before account now later answer e h =
    subst (λ o. CacheIsSaid config o before) (sym e) h
ask-CacheIsSaid (some rules) config s before account now later answer e h =
    cached_or_ask-CacheIsSaid (cached rules account now) config s rules before account later answer
      e h

-- Nothing is known yet of any account.
abbrev KnowsNothing : Option AccountRules → Type 0
KnowsNothing none = Unit {0}
KnowsNothing (some r) = (account : ℕ) → r.cache account ≡ none

from_registry-KnowsNothing : (registry : Result ℕ) → KnowsNothing (from_registry registry).0
unfolding from_registry
from_registry-KnowsNothing (err cause) = tt
from_registry-KnowsNothing (ok address) = elim (Bool-cases (address == 0)) [
  | inl zero_address ↦ rw zero_address tt
  | inr other ↦ rw other (λ account. refl)
]

from_ingress-KnowsNothing :
    (code : Result Bool) (registry : Result ℕ) → KnowsNothing (from_ingress code registry).0
unfolding from_ingress
from_ingress-KnowsNothing (err cause) registry = tt
from_ingress-KnowsNothing (ok false) registry = tt
from_ingress-KnowsNothing (ok true) registry = from_registry-KnowsNothing registry

resolve_with-KnowsNothing :
    (configured ingress : Option ℕ) (connect : Result Bool) (node : RulesNode)
    → KnowsNothing (resolve_with configured ingress connect node).0
unfolding resolve_with resolve_connected keep_configured
resolve_with-KnowsNothing none none connect node = tt
resolve_with-KnowsNothing none (some i) (err cause) node = tt
resolve_with-KnowsNothing (some a) none (err cause) node = λ account. refl
resolve_with-KnowsNothing (some a) (some i) (err cause) node = λ account. refl
resolve_with-KnowsNothing none (some i) (ok b) node =
    from_ingress-KnowsNothing (node.has_code i) (node.resolve_account_rules i)
resolve_with-KnowsNothing (some a) none (ok b) node = λ account. refl
resolve_with-KnowsNothing (some a) (some i) (ok b) node = λ account. refl

KnowsNothing-CacheIsSaid :
    (config : Option Config) (o : Option AccountRules) → KnowsNothing o → CacheIsSaid config o []
unfolding CacheIsSaid cached
KnowsNothing-CacheIsSaid config none h r account now p e c = absurd (cc)
KnowsNothing-CacheIsSaid config (some rules) h r account now p e c =
    let same_rules : (rules ≡ r) = cc in
    let empty : (r.cache account ≡ none) =
      ap (λ (q : AccountRules). q.cache account) (sym same_rules) ∙ h account in
    let e' : (none ≡ some p) = ap (λ o. entry_at o now) (sym empty) ∙ c in absurd (cc)

Reachable-CacheIsSaid :
    (config : Option Config) (s : Permits) (before : List Said)
    → Reachable config s before
    → CacheIsSaid config s.rules before
unfolding account_permitted resolve_rules
Reachable-CacheIsSaid config _ _ (unresolved s e) =
    KnowsNothing-CacheIsSaid config s.rules (subst KnowsNothing (sym e) tt)
Reachable-CacheIsSaid config _ _ (resolves s lib node e) = KnowsNothing-CacheIsSaid config s.rules (
    subst KnowsNothing (sym e) (
      resolve_with-KnowsNothing (configured_rules_address lib config) (ingress_address lib config)
        node.connect node))
Reachable-CacheIsSaid config _ _ (asks s before account now later answer h) =
    ask-CacheIsSaid s.rules config s before account now later answer refl
      (Reachable-CacheIsSaid config s before h)
Reachable-CacheIsSaid config _ _ (notes s before _ h) = Reachable-CacheIsSaid config s before h

-- Why it is said of an account what is said.
abbrev pub Grounds :
    Option Config → Option AccountRules → ℕ → ℕ → Result Bool → List Said → Result Bool → Type 0
Grounds config none account now answer before result =
    ((result ≡ ok true) ↔ (permissions_enabled config ≡ false))
    × ((result ≡ err rules_unresolved) ↔ (permissions_enabled config ≡ true))
Grounds config (some rules) account now answer before (ok permitted) =
    SaidLately config account permitted now before ⊎ (answer ≡ ok permitted)
Grounds config (some rules) account now answer before (err cause) = answer ≡ err cause

without_rules-Grounds :
    (config : Option Config)
    → ((without_rules config ≡ ok true) ↔ (permissions_enabled config ≡ false))
      × ((without_rules config ≡ err rules_unresolved) ↔ (permissions_enabled config ≡ true))
unfolding without_rules
without_rules-Grounds config = ground arith

known-Grounds :
    (known : Option Bool) (config : Option Config) (s : Permits) (rules : AccountRules)
    (before : List Said) (account now later : ℕ) (answer : Result Bool)
    → ((p : Bool) → known ≡ some p → SaidLately config account p now before)
    → Grounds config
        (some rules)
        account
        now
        answer
        before
        (cached_or_ask known config s rules account later answer).0
unfolding cached_or_ask ask_contract
known-Grounds (some p) config s rules before account now later answer h = inl (h p refl)
known-Grounds none config s rules before account now later (err cause) h = refl
known-Grounds none config s rules before account now later (ok p) h = inr refl

permitted_with-Grounds :
    (o : Option AccountRules) (config : Option Config) (s : Permits) (before : List Said)
    (account now later : ℕ) (answer : Result Bool)
    → CacheIsSaid config o before
    → Grounds config o account now answer before
        (permitted_with o config s account now later answer).0
unfolding CacheIsSaid
permitted_with-Grounds none config s before account now later answer h =
    without_rules-Grounds config
permitted_with-Grounds (some rules) config s before account now later answer h =
    known-Grounds (cached rules account now) config s rules before account now later answer
      (λ p. h rules account now p refl)

-- After any requests in any order, what is said of an account has these grounds. Without a contract of
-- rules: the account is permitted exactly if the check of permissions is off, and it is an error that
-- there are no rules exactly if it is on. With one: the account is permitted, or not, since the contract
-- says so now, or said so of this account less than the time of the cache ago; and it is an error
-- only if the contract cannot be asked, and then the error of asking it.
pub account_permitted-Grounds :
    (config : Option Config) (s : Permits) (before : List Said) (account now later : ℕ)
    (answer : Result Bool)
    → Reachable config s before
    → Grounds config s.rules account now answer before
        (account_permitted config s account now later answer).0
unfolding account_permitted
account_permitted-Grounds config s before account now later answer h =
    permitted_with-Grounds s.rules config s before account now later answer
      (Reachable-CacheIsSaid config s before h)
