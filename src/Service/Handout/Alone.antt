-- ===== src/Service/Handout/Alone.antt =====
-- Who has its turn to be handed a number.
use gas_management.Base.{
  ℕ, ◌≤◌, ◌<◌, ◌≡◌, sym, ap, subst, ◌∙◌, ◌⊎◌, inl, inr, true, Option, some, Key, Key-discrete,
  insert, lookup-insert_self, lookup-insert_ne, arith, ◌==◌, Bool-cases,
}
use gas_management.Service.Handout.{take_place, open_ticket}
use gas_management.Service.Handout.Queue.{Queue, empty_queue, asks_for, gets_number, HasTurn}

-- Every earlier ticket of the same user is closed.
abbrev pub Alone : Queue → ℕ → Type 0
Alone q t = (s : ℕ) → s < t → q.owner s ≡ q.owner t → q.tickets.closed s ≡ true

-- A ticket of the user is closed, or at most the one that is given, which is below `m`.
abbrev pub Behind : Queue → Option ℕ → Key → ℕ → ℕ → Type 0
Behind q o key m s =
    (q.tickets.closed s ≡ true) ⊎ ((p : ℕ) × (o ≡ some p) × (s ≤ p) × (p < m) × (q.owner p ≡ key))

pub record IsSerial (q : Queue) : Type 0 where
  pub shut : (t : ℕ) → q.tickets.closed t ≡ true → t < q.tickets.next_ticket
  pub known : (t : ℕ) → q.delivered t ≡ true → t < q.tickets.next_ticket
  pub past : (t : ℕ) → q.tickets.closed t ≡ true → Alone q t
  pub present : (t : ℕ) → q.delivered t ≡ true → Alone q t
  pub queued :
      (t s : ℕ)
      → t < q.tickets.next_ticket
      → s < t
      → q.owner s ≡ q.owner t
      → Behind q (q.previous t) (q.owner t) t s
  pub last :
      (key : Key) (s : ℕ)
      → s < q.tickets.next_ticket
      → q.owner s ≡ key
      → Behind q (q.tickets.handouts key) key q.tickets.next_ticket s
  pub opened :
      (key : Key) (t : ℕ)
      → q.tickets.open_tickets key ≡ some t
      → (q.delivered t ≡ true) × (q.owner t ≡ key)

pub empty-IsSerial : IsSerial empty_queue
empty-IsSerial = record {
  shut = λ t h. absurd (cc);
  known = λ t h. absurd (cc);
  past = λ t h. absurd (cc);
  present = λ t h. absurd (cc);
  queued = λ t s l. absurd (omega arith);
  last = λ key s l. absurd (omega arith);
  opened = λ key t h. absurd (cc);
}

-- Who has its turn is alone.
pub HasTurn-Alone :
    (q : Queue) (t : ℕ) → IsSerial q → t < q.tickets.next_ticket → HasTurn q t → Alone q t
HasTurn-Alone q t w l (inl none') s h o = elim (w.queued t s l h o) [
  | inl closed ↦ closed
  | inr (p, e, _, _, _) ↦ absurd (cc)
]
HasTurn-Alone q t w l (inr (p, e, c)) s h o = elim (w.queued t s l h o) [
  | inl closed ↦ closed
  | inr (p', e', le, _, own) ↦
      let same : p ≡ p' = cc in
      elim (Bool-cases (s == p)) [
        | inl here ↦ ground arith
        | inr before ↦ w.past p c s (ground arith) (o ∙ sym own ∙ ap q.owner (sym same))
      ]
]

pub asks-IsSerial : (q : Queue) (key : Key) → IsSerial q → IsSerial (asks_for q key)
unfolding asks_for take_place
asks-IsSerial q key w =
    let n = q.tickets.next_ticket in
    record {
      shut = λ t h. let l = w.shut t h in omega arith;
      known = λ t h. let l = w.known t h in omega arith;
      past = λ t h s l o. let k = w.shut t h in w.past t h s l (ground arith);
      present = λ t h s l o. let k = w.known t h in w.present t h s l (ground arith);
      queued = λ t s l b o. elim (Bool-cases (t == n)) [
        | inl e ↦ elim (w.last key s (omega arith) (ground arith)) [
          | inl c ↦ inl c
          | inr (p, h, le, lt, own) ↦ inr (p, ground arith, le, ground arith, ground arith)
        ]
        | inr e ↦ elim (w.queued t s (ground arith) b (ground arith)) [
          | inl c ↦ inl c
          | inr (p, h, le, lt, own) ↦ inr (p, ground arith, le, lt, ground arith)
        ]
      ];
      last = λ k s l o. elim (Bool-cases (s == n)) [
        | inl e ↦
            let mine : key ≡ k = ground arith in
            inr (
              n,
              subst (λ x. insert key n q.tickets.handouts x ≡ some n) mine
                  (lookup-insert_self key n q.tickets.handouts),
              ground arith,
              omega arith,
              ground arith,
            )
        | inr e ↦ elim (Key-discrete k key) [
          | yes same ↦ inr (
            n,
            subst (λ x. insert key n q.tickets.handouts x ≡ some n) (sym same)
                (lookup-insert_self key n q.tickets.handouts),
            ground arith,
            omega arith,
            ground arith,
          )
          | no other ↦ elim (w.last k s (ground arith) (ground arith)) [
            | inl c ↦ inl c
            | inr (p, h, le, lt, own) ↦ inr (
              p,
              lookup-insert_ne key k n q.tickets.handouts other ∙ h,
              le,
              omega arith,
              ground arith,
            )
          ]
        ]
      ];
      opened = λ k t h. let (d, o) = w.opened k t h in let l = w.known t d in (d, ground arith);
    }

pub gets-IsSerial :
    (q : Queue) (t : ℕ)
    → t < q.tickets.next_ticket
    → HasTurn q t
    → IsSerial q
    → IsSerial (gets_number q t)
unfolding gets_number open_ticket
gets-IsSerial q t l turn w =
    let alone = HasTurn-Alone q t w l turn in
    record {
      shut = w.shut;
      known = λ j h. ground (arith, w.known j);
      past = w.past;
      present = λ j h s b o. elim (Bool-cases (j == t)) [
        | inl e ↦ let same : j ≡ t = ground arith in alone s (omega arith) (o ∙ ap q.owner same)
        | inr e ↦ w.present j (ground arith) s b o
      ];
      queued = w.queued;
      last = w.last;
      opened = λ k j h. elim (Key-discrete k (q.owner t)) [
        | yes same ↦
            let found : some t ≡ some j =
              sym (
                subst (λ x. insert (q.owner t) t q.tickets.open_tickets x ≡ some t) (sym same)
                  (lookup-insert_self (q.owner t) t q.tickets.open_tickets))
              ∙ h in
            let here : t ≡ j = cc in (ground arith, ap q.owner (sym here) ∙ sym same)
        | no other ↦
            let (d, own) =
              w.opened k j
                (sym (lookup-insert_ne (q.owner t) k t q.tickets.open_tickets other) ∙ h) in
            (ground arith, own)
      ];
    }
