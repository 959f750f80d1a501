-- ===== src/Service/Handout/Serial.antt =====
-- The order in which the numbers of one user are handed out.
use gas_management.Base.{
  ℕ, ◌<◌, ◌≡◌, refl, sym, ap, subst, ◌∙◌, ◌⊎◌, inl, inr, true, Option, none, some, Key,
  Key-discrete, Map, delete, lookup-delete_self, lookup-delete_ne, arith, ◌==◌, Bool-cases,
  Option-cases,
}
use gas_management.Service.Handout.{is_ticket, delete_ticket, close_ticket, close_open_ticket}
use gas_management.Service.Handout.Queue.{
  Queue, Step, asks, answered, failed, expired, arrived, Reachable, starts, goes, closes,
  metatx_arrives,
}
use gas_management.Service.Handout.Alone.{
  Alone, IsSerial, empty-IsSerial, HasTurn-Alone, asks-IsSerial, gets-IsSerial,
}

is_ticket-some : (o : Option ℕ) (t : ℕ) → is_ticket o t ≡ true → o ≡ some t
is_ticket-some none t h = absurd (cc)
is_ticket-some (some u) t h = ap some (ground arith)

delete_ticket_cases :
    (key j : Key) (t : ℕ) (m : Map ℕ)
    → (delete_ticket key t m j ≡ m j) ⊎ ((m j ≡ some t) × (delete_ticket key t m j ≡ none))
delete_ticket_cases key j t m = elim (Bool-cases (is_ticket (m key) t)) [
  | inl e ↦ elim (Key-discrete j key) [
    | yes same ↦ inr (
      ap m same ∙ is_ticket-some (m key) t e,
      rw e (ap (delete key m) same ∙ lookup-delete_self key m),
    )
    | no other ↦ inl (rw e (lookup-delete_ne key j m other))
  ]
  | inr e ↦ inl (rw e refl)
]

closes-IsSerial :
    (q : Queue) (t : ℕ) → t < q.tickets.next_ticket → Alone q t → IsSerial q → IsSerial (closes q t)
unfolding closes close_ticket
closes-IsSerial q t l alone w = record {
  shut = λ j h. ground (arith, w.shut j);
  known = w.known;
  past = λ j h s b o. elim (Bool-cases (j == t)) [
    | inl e ↦
        let same : j ≡ t = ground arith in
        let c = alone s (omega arith) (o ∙ ap q.owner same) in ground arith
    | inr e ↦ let c = w.past j (ground arith) s b o in ground arith
  ];
  present = λ j h s b o. ground (arith, w.present j h s b o);
  queued = λ j s k b o. ground (arith, w.queued j s k b o);
  last = λ k s b o. elim (w.last k s b o) [
    | inl c ↦ inl (ground arith)
    | inr (p, h, le, lt, own) ↦ elim (delete_ticket_cases (q.owner t) k t q.tickets.handouts) [
      | inl e ↦ inr (p, e ∙ h, le, lt, own)
      | inr (found, gone) ↦
          let same : p ≡ t = cc in
          elim (Bool-cases (s == t)) [
            | inl here ↦ inl (ground arith)
            | inr before ↦
                let c = alone s (ground arith) (o ∙ sym own ∙ ap q.owner same) in inl (ground arith)
          ]
    ]
  ];
  opened = λ k j h. elim (delete_ticket_cases (q.owner t) k t q.tickets.open_tickets) [
    | inl e ↦ w.opened k j (sym e ∙ h)
    | inr (_, gone) ↦ absurd (cc)
  ];
}

arrives-IsSerial : (q : Queue) (key : Key) → IsSerial q → IsSerial (metatx_arrives q key)
unfolding metatx_arrives close_open_ticket closes
arrives-IsSerial q key w = elim (Option-cases (q.tickets.open_tickets key)) [
  | inl e ↦ rw e w
  | inr (t, e) ↦
      let (d, own) = w.opened key t e in
      rw e (
        subst (λ k. IsSerial (record q { tickets = close_ticket q.tickets k t })) own
          (closes-IsSerial q t (w.known t d) (w.present t d) w))
]

Step-IsSerial : (q r : Queue) → Step q r → IsSerial q → IsSerial r
Step-IsSerial q _ (asks _ key) w = asks-IsSerial q key w
Step-IsSerial q _ (answered _ t l turn) w = gets-IsSerial q t l turn w
Step-IsSerial q _ (failed _ t l turn) w = closes-IsSerial q t l (HasTurn-Alone q t w l turn) w
Step-IsSerial q _ (expired _ t d) w = closes-IsSerial q t (w.known t d) (w.present t d) w
Step-IsSerial q _ (arrived _ key) w = arrives-IsSerial q key w

Reachable-IsSerial : (q : Queue) → Reachable q → IsSerial q
Reachable-IsSerial _ starts = empty-IsSerial
Reachable-IsSerial r (goes {q} reach step) = Step-IsSerial q r step (Reachable-IsSerial q reach)

-- Whatever the requests and their order: a user is handed a number only when all tickets that he took
-- before are closed, so at most one ticket of a user whose number was handed out is open.
pub earlier_closed :
    (q : Queue) (t u : ℕ)
    → Reachable q
    → q.owner t ≡ q.owner u
    → t < u
    → q.delivered u ≡ true
    → q.tickets.closed t ≡ true
earlier_closed q t u reach own before d = (Reachable-IsSerial q reach).present u d t before own
