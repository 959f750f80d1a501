-- ===== src/Service/Blocks/Calm.antt =====
-- New blocks whose receipts make nothing panic.
use gas_management.Base.{ℕ, ◌≡◌, refl, sym, ap, subst, ◌∙◌, Bool, false, List, [], ◌∷◌, ◌++◌, All}
use gas_management.Service.Send.{Office, decrement}
use gas_management.Service.HubLog.{Hub}
use gas_management.Service.Watcher.{Watch, settle_in_flight}
use gas_management.Service.Watcher.Calm.{IsCalm, settle_in_flight-calm}
use gas_management.Service.Blocks.{
  Head, Cycle, stopped, not_connected, not_subscribed, served, lost, Plant, watched, new_head,
  new_heads,
}

-- The service runs, with this hub.
abbrev pub Runs : Hub → Plant → Type 0
Runs hub s = (s.panicked ≡ false) × (s.hub ≡ hub)

-- None of the receipts of this block, of these blocks, and of a pass has a hostile log.
abbrev pub CalmHead : Hub → Head → Type 0
CalmHead hub h = (hash : ℕ) → IsCalm hub (h.receipts hash)

abbrev pub CalmCycle : Hub → Cycle → Type 0
CalmCycle hub stopped = Unit
CalmCycle hub (not_connected done) = Unit
CalmCycle hub (not_subscribed done) = Unit
CalmCycle hub (served hs) = All (CalmHead hub) hs
CalmCycle hub (lost hs done) = All (CalmHead hub) hs

watched-Runs :
    (hub : Hub) (s : Plant) (office : Office) (x : Bool × Watch)
    → Runs hub s
    → x.0 ≡ false
    → Runs hub (watched s office x)
watched-Runs hub s office (b, w) runs e = (e, runs.1)

new_head-Runs :
    (hub : Hub) (h : Head) (s : Plant) → Runs hub s → CalmHead hub h → Runs hub (new_head h s)
unfolding new_head
new_head-Runs hub h s runs calm =
    let office = decrement s.office in
    let w : Watch = record {
      desk = record { memory = office.memory; tracker = office.tracker; log = s.log };
      warnings = s.warnings;
    } in
    watched-Runs hub s office (settle_in_flight s.hub h.receipts h.now w) runs (
      settle_in_flight-calm s.hub h.receipts h.now w
        (λ hash. subst (λ k. IsCalm k (h.receipts hash)) (sym runs.1) (calm hash)))

new_heads-one :
    (hub : Hub) (h : Head) (hs : List Head) (s : Plant)
    → Runs hub s
    → CalmHead hub h
    → new_heads (h ∷ hs) s ≡ new_heads hs (new_head h s)
unfolding new_heads
new_heads-one hub h hs s runs calm = rw ((new_head-Runs hub h s runs calm).0) refl

new_heads-nothing : (s : Plant) → new_heads [] s ≡ s
unfolding new_heads
new_heads-nothing s = refl

pub new_heads-Runs :
    (hub : Hub) (hs : List Head) (s : Plant)
    → Runs hub s
    → All (CalmHead hub) hs
    → Runs hub (new_heads hs s)
new_heads-Runs hub [] s runs calm = subst (Runs hub) (sym (new_heads-nothing s)) runs
new_heads-Runs hub (h ∷ hs) s runs calm =
    subst (Runs hub) (sym (new_heads-one hub h hs s runs calm.0))
      (new_heads-Runs hub hs (new_head h s) (new_head-Runs hub h s runs calm.0) calm.1)

pub new_heads-append :
    (hub : Hub) (hs ks : List Head) (s : Plant)
    → Runs hub s
    → All (CalmHead hub) hs
    → new_heads (hs ++ ks) s ≡ new_heads ks (new_heads hs s)
new_heads-append hub [] ks s runs calm = ap (new_heads ks) (sym (new_heads-nothing s))
new_heads-append hub (h ∷ hs) ks s runs calm =
    new_heads-one hub h (hs ++ ks) s runs calm.0
    ∙ new_heads-append hub hs ks (new_head h s) (new_head-Runs hub h s runs calm.0) calm.1
    ∙ ap (new_heads ks) (sym (new_heads-one hub h hs s runs calm.0))
