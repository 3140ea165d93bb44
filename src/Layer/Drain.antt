-- ===== src/Layer/Drain.antt =====
-- The worker of a layer, left to itself, runs every task that was accepted.
use emane.Base.{
  ℕ, Bool, true, false, not, ◌&&◌, ◌||◌, some, List, [], ◌∷◌, ◌++◌, ◌==◌, ltb, ◌≡◌, refl, sym, ap,
  subst, ◌∙◌, arith,
}
use mathlib.Core.List.{append_assoc, append-nil}
use emane.Layer.{
  QueuedTask, Worker, absent, waiting, woken, finished, swapped, busy, Outcome, ran, System,
  is_running, at, all_ran, work, Reach,
}
use emane.Layer.Order.{in_hand}
use emane.Layer.Progress.{is_empty, is_woken, is_alive, WillWake, Reach-WillWake}

drop-false : (a b : Bool) → (a || b || false) ≡ true → (a || b) ≡ true
drop-false true b h = refl
drop-false false true h = refl
drop-false false false h = cc

-- A layer that runs is not cancelled, and has a worker.
running-alive :
    (runs cancel alive : Bool)
    → runs ≡ true
    → (not runs || (not cancel && alive)) ≡ true
    → (cancel ≡ false) × (alive ≡ true)
running-alive true true alive e h = cc
running-alive true false alive e h = (refl, h)
running-alive false cancel alive e h = cc

no-writes : (a b d : Bool) (n : ℕ) → n ≡ 0 → (a || b || ltb 0 n || d) ≡ true → (a || b || d) ≡ true
no-writes a b d n e h = none-left a b d (subst (λ n. (a || b || ltb 0 n || d) ≡ true) e h)
  where
    none-left : (a b d : Bool) → (a || b || false || d) ≡ true → (a || b || d) ≡ true
    none-left true b d h = refl
    none-left false true d h = refl
    none-left false false d h = h

module _ {ℓ} {O : Type ℓ} where
  -- Steps of the worker alone.
  pub data Works : System O → System O → Type ℓ where
    done : (s : System O) → Works s s
    more : (s t u : System O) → work s ≡ some t → Works t u → Works s u

  abbrev pub IsDrained : System O → List (QueuedTask O) → System O → Type ℓ
  IsDrained s todo t =
      Works s t
      × (t.settled ≡ s.settled ++ all_ran todo)
      × (t.layer.queue ≡ [])
      × (t.layer.worker ≡ waiting)
      × (t.accepted ≡ s.accepted)

  all_ran-append : (xs ys : List (QueuedTask O)) → all_ran (xs ++ ys) ≡ all_ran xs ++ all_ran ys
  unfolding all_ran
  all_ran-append [] ys = refl
  all_ran-append (x ∷ xs) ys = ap (◌∷◌ (ran x)) (all_ran-append xs ys)

  Works-trans : (s t u : System O) → Works s t → Works t u → Works s u
  Works-trans s t u (done _) w = w
  Works-trans s t u (more _ r _ e v) w = more s r u e (Works-trans r t u v w)

  abbrev settle_at : System O → List (Outcome O) → System O
  settle_at s settled = record s { layer = record s.layer { worker = waiting }; settled = settled }

  -- The worker runs the tasks that it has taken.
  busy-runs :
      (batch : List (QueuedTask O)) (s : System O)
      → Works (at s (busy batch)) (settle_at s (s.settled ++ all_ran batch))
  unfolding work all_ran
  busy-runs [] s =
      subst (λ x. Works (at s (busy [])) (settle_at s x)) (sym (append-nil s.settled))
        (more (at s (busy [])) (at s waiting) (at s waiting) refl (done (at s waiting)))
  busy-runs (t ∷ batch) s =
      let next : System O = record s {
        layer = record s.layer { worker = busy batch };
        settled = s.settled ++ (ran t ∷ []);
      } in
      subst (λ x. Works (at s (busy (t ∷ batch))) (settle_at s x))
        (append_assoc s.settled (ran t ∷ []) (all_ran batch))
        (more (at s (busy (t ∷ batch))) next _ refl
          (busy-runs batch (record s { settled = s.settled ++ (ran t ∷ []) })))

  swapped-busy :
      (batch : List (QueuedTask O)) (s : System O)
      → s.layer.cancel ≡ false
      → work (at s (swapped batch)) ≡ some (at s (busy batch))
  unfolding work
  swapped-busy batch s e = rw e

  abbrev emptied : System O → System O
  emptied s = record s { layer = record s.layer { queue = [] } }

  -- A worker that was woken takes the queue and runs it.
  woken-runs :
      (s : System O)
      → s.layer.cancel ≡ false
      → Works (at s woken) (settle_at (emptied s) (s.settled ++ all_ran s.layer.queue))
  unfolding work
  woken-runs s e = more (at s woken) (at (emptied s) (swapped s.layer.queue)) _ refl (
      more (at (emptied s) (swapped s.layer.queue)) (at (emptied s) (busy s.layer.queue)) _
        (swapped-busy s.layer.queue (emptied s) e) (busy-runs s.layer.queue (emptied s)))

  abbrev Drained : System O → List (QueuedTask O) → Type ℓ
  Drained s todo = (t : System O) × IsDrained s todo t

  abbrev rung : System O → System O
  rung s = record s { layer = record s.layer { wakeups = 0 } }

  waiting-woken :
      (s : System O)
      → (s.layer.wakeups == 0) ≡ false
      → work (at s waiting) ≡ some (at (rung s) woken)
  unfolding work
  waiting-woken s e = rw e

  -- A worker that waits is woken if there is anything in the queue.
  waiting-drains :
      (s : System O) (queue : List (QueuedTask O))
      → s.layer.queue ≡ queue
      → s.layer.cancel ≡ false
      → (is_empty queue || ltb 0 s.layer.wakeups) ≡ true
      → Drained (at s waiting) s.layer.queue
  unfolding all_ran
  waiting-drains s [] e c h = (
    at s waiting,
    (
      done (at s waiting),
      sym (ap (λ q. s.settled ++ all_ran q) e ∙ append-nil s.settled),
      e,
      refl,
      refl,
    ),
  )
  waiting-drains s (x ∷ queue) e c h = (
    settle_at (emptied (rung s)) (s.settled ++ all_ran s.layer.queue),
    (
      more (at s waiting) (at (rung s) woken) _ (waiting-woken s (ground arith))
          (woken-runs (rung s) c),
      refl,
      refl,
      refl,
      refl,
    ),
  )

  -- After the tasks in hand come those in the queue.
  busy-drains :
      (batch : List (QueuedTask O)) (s : System O)
      → s.layer.cancel ≡ false
      → (is_empty s.layer.queue || ltb 0 s.layer.wakeups) ≡ true
      → Drained (at s (busy batch)) (batch ++ s.layer.queue)
  busy-drains batch s c h =
      let later : System O = record s { settled = s.settled ++ all_ran batch } in
      let (t, (rest, settled, queue, worker, accepted)) =
        waiting-drains later s.layer.queue refl c h in
      (
        t,
        (
          Works-trans _ (at later waiting) t (busy-runs batch s) rest,
          settled
              ∙ append_assoc s.settled (all_ran batch) (all_ran s.layer.queue)
              ∙ ap (λ x. s.settled ++ x) (sym (all_ran-append batch s.layer.queue)),
          queue,
          worker,
          accepted,
        ),
      )

  worker-drains :
      (w : Worker O) (s : System O)
      → is_alive w ≡ true
      → s.layer.cancel ≡ false
      → (is_empty s.layer.queue || ltb 0 s.layer.wakeups || is_woken w) ≡ true
      → Drained (at s w) (in_hand w ++ s.layer.queue)
  worker-drains absent s a c h = cc
  worker-drains finished s a c h = cc
  worker-drains waiting s a c h =
      waiting-drains s s.layer.queue refl c
        (drop-false (is_empty s.layer.queue) (ltb 0 s.layer.wakeups) h)
  worker-drains woken s a c h = (
    settle_at (emptied s) (s.settled ++ all_ran s.layer.queue),
    (woken-runs s c, refl, refl, refl, refl),
  )
  worker-drains (swapped batch) s a c h =
      let (t, (rest, settled, queue, worker, accepted)) =
        busy-drains batch s c (drop-false (is_empty s.layer.queue) (ltb 0 s.layer.wakeups) h) in
      (
        t,
        (
          more (at s (swapped batch)) (at s (busy batch)) t (swapped-busy batch s c) rest,
          settled,
          queue,
          worker,
          accepted,
        ),
      )
  worker-drains (busy batch) s a c h =
      busy-drains batch s c (drop-false (is_empty s.layer.queue) (ltb 0 s.layer.wakeups) h)

  -- From any state that the threads can reach in which the layer runs and no write to the event
  -- descriptor is outstanding: the worker by itself, in finitely many steps, comes to wait at an
  -- empty queue, and then every task that it had in hand or in the queue has run, in order.
  pub Reach-drains :
      (s : System O)
      → Reach s
      → is_running s.layer ≡ true
      → s.layer.writes ≡ 0
      → (t : System O) × IsDrained s (in_hand s.layer.worker ++ s.layer.queue) t
  Reach-drains s r on quiet =
      let h : WillWake s.layer = Reach-WillWake s r in
      let (c, a) =
        running-alive (is_running s.layer) s.layer.cancel (is_alive s.layer.worker) on h.alive in
      worker-drains s.layer.worker s a c (
        no-writes (is_empty s.layer.queue) (ltb 0 s.layer.wakeups) (is_woken s.layer.worker)
          s.layer.writes quiet h.wakes)
