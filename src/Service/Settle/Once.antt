-- ===== src/Service/Settle/Once.antt =====
-- Two settles of one metatx, one after the other.
use gas_management.Base.{
  ℕ, ◌-◌, ◌≤◌, ◌≡◌, refl, sym, ap, subst, ◌∙◌, inl, inr, Bool, true, false, none, some, [], ◌∷◌,
  ◌++◌, ltb, arith, Bool-cases, if◌then◌else◌,
}
use gas_management.Service.Settle.{
  Memory, MetaTxEntry, Desk, SettleEvent, find, write_entry, claim_entry, claim_settled,
  release_for, release_found, release_sent, settled_with, settle, expire_one, receipt_timeout,
  relay_settled, relay_settle_failed,
}

find-write_entry :
    (hash : ℕ) (e d : MetaTxEntry) (m : Memory)
    → find hash m ≡ some d
    → find hash (write_entry hash e m) ≡ some e
unfolding find write_entry
find-write_entry hash e d [] h = absurd (cc)
find-write_entry hash e d ((k, x) ∷ m) h = ground (arith, find-write_entry hash e d m)

-- Nobody settles this metatx any more.
abbrev IsSettled : ℕ → Memory → Type 0
IsSettled hash m = (e : MetaTxEntry) × (find hash m ≡ some e) × (e.settled ≡ true)

claim_settled-IsSettled :
    (hash : ℕ) (m : Memory) → IsSettled hash m → claim_settled hash m ≡ (false, m)
unfolding claim_settled claim_entry
claim_settled-IsSettled hash m (e, f, s) =
    ap (λ o. claim_entry o hash m) f
    ∙ ap (λ b. if b then (false, m) else (true, write_entry hash (record e { settled = true }) m)) s

claim_settled_first :
    (hash : ℕ) (e : MetaTxEntry) (m : Memory)
    → find hash m ≡ some e
    → e.settled ≡ false
    → claim_settled hash m ≡ (true, write_entry hash (record e { settled = true }) m)
unfolding claim_settled claim_entry
claim_settled_first hash e m f s =
    ap (λ o. claim_entry o hash m) f
    ∙ ap (λ b. if b then (false, m) else (true, write_entry hash (record e { settled = true }) m)) s

claim_settled_after :
    (hash : ℕ) (e : MetaTxEntry) (m : Memory)
    → find hash m ≡ some e
    → IsSettled hash (claim_settled hash m).1
claim_settled_after hash e m f = elim (Bool-cases e.settled) [
  | inl s ↦
      subst (λ r. IsSettled hash r.1) (sym (claim_settled-IsSettled hash m (e, f, s))) (e, f, s)
  | inr s ↦
      subst (λ r. IsSettled hash r.1) (sym (claim_settled_first hash e m f s))
        (
          record e { settled = true },
          find-write_entry hash (record e { settled = true }) e m f,
          refl,
        )
]

release_sent-found :
    (d : Desk) (hash : ℕ) (rejected : Bool) (now : ℕ) (e : MetaTxEntry)
    → find hash d.memory ≡ some e
    → release_sent d hash rejected now ≡ record d {
      memory = write_entry hash (record e { chain = none }) d.memory;
      tracker = release_for d.tracker e.sender_key e.chain rejected now;
    }
unfolding release_sent release_found
release_sent-found d hash rejected now e f = ap (λ o. release_found o d hash rejected now) f

release_sent-IsSettled :
    (d : Desk) (hash : ℕ) (rejected : Bool) (now : ℕ)
    → IsSettled hash d.memory
    → IsSettled hash (release_sent d hash rejected now).memory
release_sent-IsSettled d hash rejected now (e, f, s) =
    subst (λ (u : Desk). IsSettled hash u.memory) (sym (release_sent-found d hash rejected now e f))
      (record e { chain = none }, find-write_entry hash (record e { chain = none }) e d.memory f, s)

-- Of a metatx that somebody has settled, neither path settles anything.
pub settle-IsSettled :
    (d : Desk) (hash : ℕ) (rejected : Bool) (now : ℕ)
    → IsSettled hash d.memory
    → settle d hash rejected now ≡ d
unfolding settle
settle-IsSettled d hash rejected now i =
    ap (λ c. settled_with (relay_settled hash) c d hash rejected now)
      (claim_settled-IsSettled hash d.memory i)

pub expire_one-IsSettled :
    (d : Desk) (hash sent_at now : ℕ) → IsSettled hash d.memory → expire_one d hash sent_at now ≡ d
unfolding expire_one
expire_one-IsSettled d hash sent_at now i =
    elim (Bool-cases (ltb (now - sent_at) (receipt_timeout d.tracker.config))) [
      | inl e ↦ rw e refl
      | inr e ↦ rw e (
          ap (λ c. settled_with (relay_settle_failed hash) c d hash false now)
            (claim_settled-IsSettled hash d.memory i))
    ]

-- The first to claim a metatx writes its line and releases.
settled_with_first :
    (line : SettleEvent) (d : Desk) (hash : ℕ) (rejected : Bool) (now : ℕ) (e : MetaTxEntry)
    → find hash d.memory ≡ some e
    → e.settled ≡ false
    → settled_with line (claim_settled hash d.memory) d hash rejected now ≡ record d {
      memory =
          write_entry hash
            (record e { settled = true; chain = none })
            (write_entry hash (record e { settled = true }) d.memory);
      tracker = release_for d.tracker e.sender_key e.chain rejected now;
      log = d.log ++ line ∷ [];
    }
settled_with_first line d hash rejected now e f s =
    let claimed = write_entry hash (record e { settled = true }) d.memory in
    ap (λ c. settled_with line c d hash rejected now) (claim_settled_first hash e d.memory f s)
    ∙ release_sent-found (record d { memory = claimed; log = d.log ++ line ∷ [] }) hash rejected now
        (record e { settled = true })
        (find-write_entry hash (record e { settled = true }) e d.memory f)

-- A metatx that is remembered and not settled is settled by the first that comes: `settle` adds one
-- line to the log, and releases its chain unless the hub refused the metatx or it counts on no chain.
-- After that neither `settle` nor the deadline changes anything, whatever they say and whenever.
pub settle-once :
    (d : Desk) (hash : ℕ) (rejected other : Bool) (now later sent_at : ℕ) (e : MetaTxEntry)
    → find hash d.memory ≡ some e
    → e.settled ≡ false
    → let u = settle d hash rejected now in
      (u.log ≡ d.log ++ relay_settled hash ∷ [])
      × (u.tracker ≡ release_for d.tracker e.sender_key e.chain rejected now)
      × (settle u hash other later ≡ u)
      × (expire_one u hash sent_at later ≡ u)
unfolding settle
settle-once d hash rejected other now later sent_at e f s =
    let first = settled_with_first (relay_settled hash) d hash rejected now e f s in
    let i : IsSettled hash (settle d hash rejected now).memory =
      subst (λ (u : Desk). IsSettled hash u.memory) (sym first)
        (
          record e { settled = true; chain = none },
          find-write_entry hash _ (record e { settled = true }) _
              (find-write_entry hash (record e { settled = true }) e d.memory f),
          refl,
        ) in
    (
      ap (λ (u : Desk). u.log) first,
      ap (λ (u : Desk). u.tracker) first,
      settle-IsSettled _ hash other later i,
      expire_one-IsSettled _ hash sent_at later i,
    )

expire_one_late :
    (d : Desk) (hash sent_at now : ℕ)
    → receipt_timeout d.tracker.config ≤ now - sent_at
    → expire_one d hash sent_at now
      ≡ settled_with (relay_settle_failed hash) (claim_settled hash d.memory) d hash false now
unfolding expire_one
expire_one_late d hash sent_at now late =
    let over : (ltb (now - sent_at) (receipt_timeout d.tracker.config) ≡ false) = ground arith in
    rw over refl

-- The same of the deadline, once the time for the receipt has passed: it adds one line to the log
-- and releases the chain that the metatx counts on, and what comes after it changes nothing.
pub expire_one-once :
    (d : Desk) (hash sent_at now later : ℕ) (other : Bool) (e : MetaTxEntry)
    → find hash d.memory ≡ some e
    → e.settled ≡ false
    → receipt_timeout d.tracker.config ≤ now - sent_at
    → let u = expire_one d hash sent_at now in
      (u.log ≡ d.log ++ relay_settle_failed hash ∷ [])
      × (u.tracker ≡ release_for d.tracker e.sender_key e.chain false now)
      × (settle u hash other later ≡ u)
      × (expire_one u hash sent_at later ≡ u)
expire_one-once d hash sent_at now later other e f s late =
    let first =
      expire_one_late d hash sent_at now late
      ∙ settled_with_first (relay_settle_failed hash) d hash false now e f s in
    let i : IsSettled hash (expire_one d hash sent_at now).memory =
      subst (λ (u : Desk). IsSettled hash u.memory) (sym first)
        (
          record e { settled = true; chain = none },
          find-write_entry hash _ (record e { settled = true }) _
              (find-write_entry hash (record e { settled = true }) e d.memory f),
          refl,
        ) in
    (
      ap (λ (u : Desk). u.log) first,
      ap (λ (u : Desk). u.tracker) first,
      settle-IsSettled _ hash other later i,
      expire_one-IsSettled _ hash sent_at later i,
    )
