-- ===== src/Service/Blocks/Waits.antt =====
-- How the subscription to new blocks goes on: its waits, its end, and the blocks that it hands on.
use gas_management.Base.{
  ℕ, ◌+◌, ◌≡◌, ◌↔◌, refl, sym, ap, ◌∙◌, Bool, true, false, List, [], ◌∷◌, ◌++◌, All,
}
use gas_management.Service.HubLog.{Hub}
use gas_management.Service.Blocks.{
  Head, Cycle, stopped, not_connected, not_subscribed, served, lost, Plant, initial_backoff,
  max_backoff, next_backoff, new_heads, wait_or_done, Run, process_new_blocks,
}
use gas_management.Service.Blocks.Course.{
  wait_after, Course, waits_first, course, run_of, next_backoff-wait_after, AnyStops,
  course-AnyStops, IsWait, course-IsWait,
}
use gas_management.Service.Blocks.Calm.{Runs, CalmHead, CalmCycle, new_heads-Runs, new_heads-append}

waits_first-run :
    (done : Bool) (d : ℕ) (c : Course) (s : Plant) (r : Run)
    → r ≡ run_of c s
    → wait_or_done done d s r ≡ run_of (waits_first done d c) s
unfolding new_heads
waits_first-run true d c s r h = refl
waits_first-run false d c s r h = ap (λ q. ((q.0.0, d ∷ q.0.1), q.1)) h

after_backoff :
    (cs : List Cycle) (failures : ℕ) (s : Plant) (r : Run)
    → process_new_blocks cs (wait_after (failures + 1)) s ≡ r
    → process_new_blocks cs (next_backoff (wait_after failures) max_backoff) s ≡ r
after_backoff cs failures s r h =
    ap (λ b. process_new_blocks cs b s) (next_backoff-wait_after failures) ∙ h

process_new_blocks-from :
    (hub : Hub) (cs : List Cycle) (failures : ℕ) (s : Plant)
    → Runs hub s
    → All (CalmCycle hub) cs
    → process_new_blocks cs (wait_after failures) s ≡ run_of (course cs failures) s
unfolding process_new_blocks new_heads
process_new_blocks-from hub [] failures s runs calm = refl
process_new_blocks-from hub (stopped ∷ cs) failures s runs calm = refl
process_new_blocks-from hub (not_connected done ∷ cs) failures s runs calm =
    waits_first-run done (wait_after failures) (course cs (failures + 1)) s _
      (after_backoff cs failures s _ (process_new_blocks-from hub cs (failures + 1) s runs calm.1))
process_new_blocks-from hub (not_subscribed done ∷ cs) failures s runs calm =
    waits_first-run done (wait_after failures) (course cs (failures + 1)) s _
      (after_backoff cs failures s _ (process_new_blocks-from hub cs (failures + 1) s runs calm.1))
process_new_blocks-from hub (served hs ∷ cs) failures s runs calm =
    rw ((new_heads-Runs hub hs s runs calm.0).0) refl
process_new_blocks-from hub (lost hs done ∷ cs) failures s runs calm =
    let c = waits_first done (wait_after 0) (course cs 1) in
    let on = new_heads-Runs hub hs s runs calm.0 in
    rw (on.0) (
      waits_first-run done (wait_after 0) (course cs 1) (new_heads hs s) _ (
        after_backoff cs 0 (new_heads hs s) _
          (process_new_blocks-from hub cs 1 (new_heads hs s) on calm.1))
      ∙ ap (λ q. ((c.returns, c.waits), q)) (sym (new_heads-append hub hs c.heads s runs calm.0)))

CalmHead-append :
    (hub : Hub) (xs ys : List Head)
    → All (CalmHead hub) xs
    → All (CalmHead hub) ys
    → All (CalmHead hub) (xs ++ ys)
CalmHead-append hub [] ys h k = k
CalmHead-append hub (x ∷ xs) ys h k = (h.0, CalmHead-append hub xs ys h.1 k)

waits_first-CalmHead :
    (hub : Hub) (done : Bool) (d : ℕ) (rest : Course)
    → All (CalmHead hub) rest.heads
    → All (CalmHead hub) (waits_first done d rest).heads
waits_first-CalmHead hub true d rest h = tt
waits_first-CalmHead hub false d rest h = h

course-CalmHead :
    (hub : Hub) (cs : List Cycle) (failures : ℕ)
    → All (CalmCycle hub) cs
    → All (CalmHead hub) (course cs failures).heads
course-CalmHead hub [] failures calm = tt
course-CalmHead hub (stopped ∷ cs) failures calm = tt
course-CalmHead hub (not_connected done ∷ cs) failures calm =
    waits_first-CalmHead hub done (wait_after failures) (course cs (failures + 1))
      (course-CalmHead hub cs (failures + 1) calm.1)
course-CalmHead hub (not_subscribed done ∷ cs) failures calm =
    waits_first-CalmHead hub done (wait_after failures) (course cs (failures + 1))
      (course-CalmHead hub cs (failures + 1) calm.1)
course-CalmHead hub (served hs ∷ cs) failures calm = calm.0
course-CalmHead hub (lost hs done ∷ cs) failures calm =
    CalmHead-append hub hs _ calm.0
      (waits_first-CalmHead hub done (wait_after 0) (course cs 1) (course-CalmHead hub cs 1 calm.1))

-- While none of the receipts that the node gives has a TransactionRelayed of a call that failed with an
-- output that decodeRevertReason panics on, and whatever else the node does: nothing panics; the loop
-- returns exactly if `done` closes in some pass, so no failure ends it; it waits after each failure, 1
-- second at least and 30 at most, namely 2 to the number of failures since the last subscription, in
-- seconds, up to 30; and the blocks of all subscriptions up to its end are handed on, each once and
-- in order.
pub process_new_blocks-goes_on :
    (hub : Hub) (cs : List Cycle) (s : Plant)
    → Runs hub s
    → All (CalmCycle hub) cs
    → let c = course cs 0 in
      (process_new_blocks cs initial_backoff s ≡ ((c.returns, c.waits), new_heads c.heads s))
      × ((process_new_blocks cs initial_backoff s).1.panicked ≡ false)
      × ((c.returns ≡ true) ↔ AnyStops cs)
      × All IsWait c.waits
process_new_blocks-goes_on hub cs s runs calm =
    let e = process_new_blocks-from hub cs 0 s runs calm in
    (
      e,
      ap (λ x. x.1.panicked) e
          ∙ (new_heads-Runs hub (course cs 0).heads s runs (course-CalmHead hub cs 0 calm)).0,
      course-AnyStops cs 0,
      course-IsWait cs 0,
    )
