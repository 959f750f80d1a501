-- ===== src/Service/Tracker/Chains/Reads.antt =====
-- Reading the chain in force.
use gas_management.Base.{
  ℕ, ◌-◌, ◌<◌, ◌≡◌, refl, ◌⊎◌, ◌∙◌, ap, lookup-delete_self, inl, inr, Option, none, some, Key,
  delete, arith, ltb, Bool-cases,
}
use gas_management.Service.Tracker.{Tracker, Chain}
use gas_management.Service.Tracker.Chains.{nonce_cache_ttl, live_chain, chain_locked, pending_in}

-- The chain has outlived the time to live of the cache.
abbrev pub IsExpired : Tracker → Chain → ℕ → Type 0
IsExpired t chain now = nonce_cache_ttl t.config < now - chain.updated_at

abbrev pub ReadsAs : Tracker → Key → ℕ → Option Chain → Option Chain × Tracker → Type 0
ReadsAs t key now found r =
    ((found ≡ none) × (r ≡ (none, t)))
    ⊎ ((chain : Chain) × (found ≡ some chain) × (¬ IsExpired t chain now) × (r ≡ (some chain, t)))
    ⊎ ((chain : Chain) × (found ≡ some chain)
        × IsExpired t chain now
        × (r ≡ (none, record t { senders = delete key t.senders })))

live_chain-ReadsAs :
    (o : Option Chain) (t : Tracker) (key : Key) (now : ℕ)
    → ReadsAs t key now o (live_chain o t key now)
unfolding live_chain
live_chain-ReadsAs none t key now = inl (refl, refl)
live_chain-ReadsAs (some chain) t key now =
    elim (Bool-cases (ltb (nonce_cache_ttl t.config) (now - chain.updated_at))) [
      | inl e ↦ inr (inr (chain, refl, ground arith, rw (e, live_chain)))
      | inr e ↦ inr (inl (chain, refl, ground arith, rw (e, live_chain)))
    ]

-- A read finds nothing, or the chain that is stored, or drops the one that has expired.
pub chain_locked-ReadsAs :
    (t : Tracker) (key : Key) (now : ℕ) → ReadsAs t key now (t.senders key) (chain_locked t key now)
unfolding chain_locked
chain_locked-ReadsAs t key now = live_chain-ReadsAs (t.senders key) t key now

-- How many metatx of the user were sent and are not resolved.
abbrev pub pending_now : Tracker → Key → ℕ → ℕ
pending_now t key now = pending_in (chain_locked t key now).0

live_chain-congr :
    (o : Option Chain) (t u : Tracker) (key : Key) (now : ℕ)
    → u.config ≡ t.config
    → (live_chain o u key now).0 ≡ (live_chain o t key now).0
unfolding live_chain
live_chain-congr none t u key now e = refl
live_chain-congr (some chain) t u key now e = rw e (ground arith)

-- The chain in force depends on the chain that is stored, and on the configuration.
pub chain-congr :
    (t u : Tracker) (key : Key) (now : ℕ)
    → u.senders key ≡ t.senders key
    → u.config ≡ t.config
    → (chain_locked u key now).0 ≡ (chain_locked t key now).0
unfolding chain_locked
chain-congr t u key now e c =
    ap (λ o. (live_chain o u key now).0) e ∙ live_chain-congr (t.senders key) t u key now c

pub chain_absent :
    (t : Tracker) (key : Key) (now : ℕ) → t.senders key ≡ none → chain_locked t key now ≡ (none, t)
unfolding chain_locked
chain_absent t key now e = ap (λ o. live_chain o t key now) e

-- A second read at the same time finds the same chain.
pub chain-reread :
    (t : Tracker) (key : Key) (now : ℕ)
    → (chain_locked (chain_locked t key now).1 key now).0 ≡ (chain_locked t key now).0
chain-reread t key now = elim (chain_locked-ReadsAs t key now) [
  | inl e ↦ ground arith
  | inr (inl e) ↦ ground arith
  | inr (inr e) ↦ ground (
    arith,
    chain_absent (record t { senders = delete key t.senders }) key now
        (lookup-delete_self key t.senders),
  )
]

pub pending-reread :
    (t : Tracker) (key : Key) (now : ℕ)
    → pending_now (chain_locked t key now).1 key now ≡ pending_now t key now
pending-reread t key now = ap pending_in (chain-reread t key now)
