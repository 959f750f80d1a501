-- ===== src/Service/Tracker/Chains/Idle.antt =====
-- What the end of a metatx does to the identities and the timers of the stored chains.
use gas_management.Base.{
  ℕ, ◌-◌, ◌≡◌, refl, ap, ◌∙◌, ◌⊎◌, inl, inr, ◌&&◌, Option, none, some, Key, insert,
  lookup-insert_self, arith, ltb, ◌==◌, Bool-cases,
}
use gas_management.Service.Tracker.{Tracker, Chain}
use gas_management.Service.Tracker.Registry.{notify_turn_locked}
use gas_management.Service.Tracker.Registry.Wake.{notify_turn-Woken}
use gas_management.Service.Tracker.Chains.{
  schedule_expiry, release_current, release_if, release_chain, expire_if, expire_chain,
  grace_window,
}
use gas_management.Service.Tracker.Chains.Identity.{
  IsChained, drop-IsChained, notify-IsChained, insert-IsChained,
}

-- A write of the chain that the key has, with its identity kept.
rewrite-IsChained :
    (t : Tracker) (key : Key) (c v : Chain)
    → t.senders key ≡ some c
    → v.id ≡ c.id
    → (v.expiry ≡ none) ⊎ (v.pending ≡ 0)
    → IsChained t
    → IsChained (record t { senders = insert key v t.senders })
rewrite-IsChained t key c v h same timed w =
    insert-IsChained t key v t.next_chain (omega arith) (ground (arith, w.made key c h))
      (λ j d a i e. a (w.own j key d c i h (e ∙ same))) timed w

schedule-IsChained :
    (o : Option ℕ) (t : Tracker) (key : Key) (c : Chain) (now : ℕ)
    → t.senders key ≡ some c
    → c.pending ≡ 0
    → IsChained t
    → IsChained (schedule_expiry o t key c now)
unfolding schedule_expiry
schedule-IsChained (some x) t key c now h z w = w
schedule-IsChained none t key c now h z w = elim (Bool-cases (ltb 0 (grace_window t.config))) [
  | inl e ↦ rw e (rewrite-IsChained t key c _ h refl (inr z) w)
  | inr e ↦ rw e (drop-IsChained t key w)
]

release_current-IsChained :
    (t : Tracker) (key : Key) (c : Chain) (now : ℕ)
    → t.senders key ≡ some c
    → IsChained t
    → IsChained (release_current t key c now)
unfolding release_current
release_current-IsChained t key c now h w =
    let c' : Chain = record c { pending = c.pending - 1 } in
    let t' : Tracker = record t { senders = insert key c' t.senders } in
    let timed : ((c'.expiry ≡ none) ⊎ (c'.pending ≡ 0)) = elim (w.timed key c h) [
      | inl e ↦ inl e
      | inr e ↦ inr (omega arith)
    ] in
    let w' = notify-IsChained t' key (rewrite-IsChained t key c c' h refl timed w) in
    let there =
      ap (λ s. s key) (notify_turn-Woken t' key).senders ∙ lookup-insert_self key c' t.senders in
    elim (Bool-cases (ltb 0 (c.pending - 1))) [
      | inl e ↦ rw e w'
      | inr e ↦ rw e (
          schedule-IsChained c.expiry (notify_turn_locked t' key) key c' now there (ground arith)
            w')
    ]

release_if-IsChained :
    (o : Option Chain) (t : Tracker) (key : Key) (id now : ℕ)
    → t.senders key ≡ o
    → IsChained t
    → IsChained (release_if o t key id now)
unfolding release_if
release_if-IsChained none t key id now h w = w
release_if-IsChained (some c) t key id now h w = elim (Bool-cases (c.id == id)) [
  | inl e ↦ rw e (release_current-IsChained t key c now h w)
  | inr e ↦ rw e w
]

pub release-IsChained :
    (t : Tracker) (key : Key) (id : Option ℕ) (now : ℕ)
    → IsChained t
    → IsChained (release_chain t key id now)
unfolding release_chain
release-IsChained t key none now w = w
release-IsChained t key (some id) now w = release_if-IsChained (t.senders key) t key id now refl w

expire_if-IsChained :
    (o : Option Chain) (t : Tracker) (key : Key) (id : ℕ)
    → IsChained t
    → IsChained (expire_if o t key id)
unfolding expire_if
expire_if-IsChained none t key id w = w
expire_if-IsChained (some c) t key id w = elim (Bool-cases ((c.id == id) && (c.pending == 0))) [
  | inl e ↦ rw e (drop-IsChained t key w)
  | inr e ↦ rw e w
]

pub expire-IsChained :
    (t : Tracker) (key : Key) (id : ℕ) → IsChained t → IsChained (expire_chain t key id)
unfolding expire_chain
expire-IsChained t key id w = expire_if-IsChained (t.senders key) t key id w
