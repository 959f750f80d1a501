-- ===== src/Service/Reorder/Cap.antt =====
-- The count of metatx in flight.
use gas_management.Base.{
  ℕ, ◌+◌, ◌≡◌, refl, sym, ap, ◌∙◌, inl, inr, [], ◌∷◌, Key, In, arith, length, length-append,
}
use mathlib.Core.Path.{ap₂}
use gas_management.Service.Tracker.{Tracker}
use gas_management.Service.Tracker.Registry.{waiters, waiting_of, hold}
use gas_management.Base.Ids.{length-remove, contains_of-In}
use gas_management.Service.Tracker.Registry.Waiters.{waiters-hold_self}
use gas_management.Service.Tracker.Registry.Evict.{Evicted}
use gas_management.Service.Tracker.Chains.{inflight_locked, pending_in}
use gas_management.Service.Tracker.Chains.Reads.{
  chain_locked-ReadsAs, pending_now, chain-congr, pending-reread,
}

-- Reading leaves the registry and the entries as they are.
pub inflight_same :
    (t : Tracker) (key : Key) (now : ℕ)
    → let u = (inflight_locked t key now).1 in
      (u.held ≡ t.held)
      × (u.entries ≡ t.entries)
      × (u.config ≡ t.config)
      × (u.next_entry ≡ t.next_entry)
unfolding inflight_locked
inflight_same t key now = elim (chain_locked-ReadsAs t key now) [
  | inl e ↦ ground arith
  | inr (inl e) ↦ ground arith
  | inr (inr e) ↦ ground arith
]

pub inflight-eq :
    (t : Tracker) (key : Key) (now : ℕ)
    → (inflight_locked t key now).0 ≡ length (waiters t.held key) + pending_now t key now
unfolding inflight_locked waiting_of
inflight-eq t key now = refl

-- Reading the count twice gives the same count.
pub pending-inflight :
    (t : Tracker) (key : Key) (now : ℕ)
    → pending_now (inflight_locked t key now).1 key now ≡ pending_now t key now
unfolding inflight_locked
pending-inflight t key now = pending-reread t key now

pub inflight-reread :
    (t : Tracker) (key : Key) (now : ℕ)
    → (inflight_locked (inflight_locked t key now).1 key now).0 ≡ (inflight_locked t key now).0
inflight-reread t key now =
    let same = inflight_same t key now in
    inflight-eq (inflight_locked t key now).1 key now
    ∙ ap₂ (λ (n m : ℕ). n + m) (ap (λ held. length (waiters held key)) same.0)
        (pending-inflight t key now)
    ∙ sym (inflight-eq t key now)

hold_same :
    (t : Tracker) (key : Key) (nonce : ℕ)
    → ((hold t key nonce).1.senders ≡ t.senders) × ((hold t key nonce).1.config ≡ t.config)
unfolding hold
hold_same t key nonce = (refl, refl)

-- A metatx that is held counts as one in flight.
pub inflight-hold :
    (t : Tracker) (key : Key) (nonce now : ℕ)
    → (inflight_locked (hold t key nonce).1 key now).0 ≡ (inflight_locked t key now).0 + 1
inflight-hold t key nonce now =
    let (senders, config) = hold_same t key nonce in
    omega (
      arith,
      inflight-eq (hold t key nonce).1 key now,
      inflight-eq t key now,
      ap length (waiters-hold_self t key nonce),
      length-append (waiters t.held key) (t.next_entry ∷ []),
      ap pending_in (chain-congr t (hold t key nonce).1 key now (ap (λ s. s key) senders) config),
    )

-- The eviction of a held metatx gives its place back at once.
pub inflight-Evicted :
    (t u : Tracker) (key : Key) (id n now : ℕ)
    → Evicted t u key id n
    → In id (waiters t.held key)
    → (inflight_locked u key now).0 + 1 ≡ (inflight_locked t key now).0
inflight-Evicted t u key id n now v i = omega (
  arith,
  inflight-eq u key now,
  inflight-eq t key now,
  ap length v.removed,
  length-remove id (waiters t.held key) (contains_of-In id (waiters t.held key) i),
  ap pending_in (chain-congr t u key now (ap (λ s. s key) v.senders) v.config),
)
