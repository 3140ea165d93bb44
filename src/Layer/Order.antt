-- ===== src/Layer/Order.antt =====
-- The tasks of a layer come to their end in the order in which they were accepted.
use emane.Base.{
  ◌+◌, Bool, true, false, none, some, List, [], ◌∷◌, ◌++◌, ◌==◌, if◌then◌else◌, ◌≡◌, refl, sym, ap,
  subst, ◌∙◌,
}
use mathlib.Core.List.{append_assoc, append-nil}
use emane.Layer.{
  QueuedTask, Worker, absent, waiting, woken, finished, swapped, busy, Layer, Outcome, ran, dropped,
  System, start, start_from, begin_stop, end_stop, is_joined, is_running, enqueue, all_dropped,
  work, Step, starts, begins_stop, ends_stop, enqueues, writes_event, works, work_from, Reach,
  initially, step,
}

module _ {ℓ} {O : Type ℓ} where
  abbrev pub tasks_of : List (Outcome O) → List (QueuedTask O)
  tasks_of [] = []
  tasks_of (ran t ∷ rest) = t ∷ tasks_of rest
  tasks_of (dropped t ∷ rest) = t ∷ tasks_of rest

  -- The tasks that the worker has taken and not yet run.
  abbrev pub in_hand : Worker O → List (QueuedTask O)
  in_hand (swapped batch) = batch
  in_hand (busy batch) = batch
  in_hand _ = []

  abbrev pub IsInOrder : System O → Type ℓ
  IsInOrder s = tasks_of s.settled ++ (in_hand s.layer.worker ++ s.layer.queue) ≡ s.accepted

  tasks_of-append : (xs ys : List (Outcome O)) → tasks_of (xs ++ ys) ≡ tasks_of xs ++ tasks_of ys
  tasks_of-append [] ys = refl
  tasks_of-append (ran t ∷ xs) ys = ap (◌∷◌ t) (tasks_of-append xs ys)
  tasks_of-append (dropped t ∷ xs) ys = ap (◌∷◌ t) (tasks_of-append xs ys)

  tasks_of-all_dropped : (ts : List (QueuedTask O)) → tasks_of (all_dropped ts) ≡ ts
  unfolding all_dropped
  tasks_of-all_dropped [] = refl
  tasks_of-all_dropped (t ∷ ts) = ap (◌∷◌ t) (tasks_of-all_dropped ts)

  -- To settle the first of the tasks that are left.
  settle :
      (xs ys : List (Outcome O)) (rest all : List (QueuedTask O))
      → tasks_of xs ++ (tasks_of ys ++ rest) ≡ all
      → tasks_of (xs ++ ys) ++ rest ≡ all
  settle xs ys rest all e =
      ap (λ z. z ++ rest) (tasks_of-append xs ys)
      ∙ append_assoc (tasks_of xs) (tasks_of ys) rest
      ∙ e

  pub some-inj : {a b : System O} → some a ≡ some b → a ≡ b
  some-inj e = cc

  pub unless {κ} :
      (P : System O → Type κ) (test : Bool) {x t : System O}
      → (if test then none else some x) ≡ some t
      → P x
      → P t
  unless P true e h = cc
  unless P false e h = subst P (some-inj e) h

  pub either {κ} :
      (P : System O → Type κ) (test : Bool) {x y t : System O}
      → (if test then some x else some y) ≡ some t
      → (test ≡ true → P x)
      → (test ≡ false → P y)
      → P t
  either P true e h k = subst P (some-inj e) (h refl)
  either P false e h k = subst P (some-inj e) (k refl)

  work_from-IsInOrder :
      (w : Worker O) (s t : System O)
      → work_from w s ≡ some t
      → tasks_of s.settled ++ (in_hand w ++ s.layer.queue) ≡ s.accepted
      → IsInOrder t
  work_from-IsInOrder absent s t f h = cc
  work_from-IsInOrder finished s t f h = cc
  work_from-IsInOrder waiting s t f h = unless IsInOrder (s.layer.wakeups == 0) f h
  work_from-IsInOrder woken s t f h =
      subst IsInOrder (some-inj f)
        (ap (λ z. tasks_of s.settled ++ z) (append-nil s.layer.queue) ∙ h)
  work_from-IsInOrder (swapped batch) s t f h =
      let drops : tasks_of s.settled ++ (tasks_of (all_dropped batch) ++ s.layer.queue)
          ≡ s.accepted =
        ap (λ z. tasks_of s.settled ++ (z ++ s.layer.queue)) (tasks_of-all_dropped batch) ∙ h in
      either IsInOrder s.layer.cancel f
        (λ _. settle s.settled (all_dropped batch) s.layer.queue s.accepted drops) (λ _. h)
  work_from-IsInOrder (busy []) s t f h = subst IsInOrder (some-inj f) h
  work_from-IsInOrder (busy (task ∷ batch)) s t f h =
      subst IsInOrder (some-inj f)
        (settle s.settled (ran task ∷ []) (batch ++ s.layer.queue) s.accepted h)

  -- A start changes nothing about the tasks: there is a worker, and it is kept, or there is none.
  start_from-same :
      (w : Worker O) (l : Layer O)
      → l.worker ≡ w
      → (in_hand (start_from w l).worker ≡ in_hand w) × ((start_from w l).queue ≡ l.queue)
  start_from-same absent l e = (refl, refl)
  start_from-same waiting l e = (ap in_hand e, refl)
  start_from-same woken l e = (ap in_hand e, refl)
  start_from-same finished l e = (ap in_hand e, refl)
  start_from-same (swapped batch) l e = (ap in_hand e, refl)
  start_from-same (busy batch) l e = (ap in_hand e, refl)

  pub enqueue-same :
      (l k : Layer O) (task : QueuedTask O)
      → enqueue l task ≡ some k
      → record l { queue = l.queue ++ (task ∷ []); writes = l.writes + 1 } ≡ k
  unfolding enqueue
  enqueue-same l k task e = queued (is_running l) e
    where
      queued :
          (b : Bool)
          → (if b
              then some (record l { queue = l.queue ++ (task ∷ []); writes = l.writes + 1 })
              else none)
            ≡ some k
          → record l { queue = l.queue ++ (task ∷ []); writes = l.writes + 1 } ≡ k
      queued true e = cc
      queued false e = cc

  joined-in_hand : (w : Worker O) → is_joined w ≡ true → in_hand w ≡ []
  unfolding is_joined
  joined-in_hand absent h = refl
  joined-in_hand finished h = refl
  joined-in_hand waiting h = cc
  joined-in_hand woken h = cc
  joined-in_hand (swapped batch) h = cc
  joined-in_hand (busy batch) h = cc

  appended :
      (a b c d all : List (QueuedTask O)) → a ++ (b ++ c) ≡ all → a ++ (b ++ (c ++ d)) ≡ all ++ d
  appended a b c d all e =
      ap (λ z. a ++ z) (sym (append_assoc b c d))
      ∙ sym (append_assoc a (b ++ c) d)
      ∙ ap (λ z. z ++ d) e

  Step-IsInOrder : (s t : System O) → Step s t → IsInOrder s → IsInOrder t
  unfolding work begin_stop end_stop start
  Step-IsInOrder s t (starts _ _) h =
      let (hand, queue) = start_from-same s.layer.worker s.layer refl in
      ap (λ z. tasks_of s.settled ++ (z ++ (start s.layer).queue)) hand
      ∙ ap (λ z. tasks_of s.settled ++ (in_hand s.layer.worker ++ z)) queue
      ∙ h
  Step-IsInOrder s t (begins_stop _ _) h = h
  Step-IsInOrder s t (ends_stop _ _ joined) h =
      ap (λ z. tasks_of s.settled ++ (z ++ s.layer.queue))
        (sym (joined-in_hand s.layer.worker joined))
      ∙ h
  Step-IsInOrder s t (enqueues _ task l e) h =
      subst
        (λ k.
          IsInOrder
            (record { layer = k; accepted = s.accepted ++ (task ∷ []); settled = s.settled }))
        (enqueue-same s.layer l task e)
        (appended (tasks_of s.settled) (in_hand s.layer.worker) s.layer.queue (task ∷ []) s.accepted
          h)
  Step-IsInOrder s t (writes_event _ _) h = h
  Step-IsInOrder s t (works _ _ f) h = work_from-IsInOrder s.layer.worker s t f h

  -- Whatever the order in which the threads take their steps from a new layer on: the tasks that
  -- came to an end, run or dropped, in that order, then those that the worker has in hand, then those in
  -- the queue, are the accepted tasks in the order in which they were accepted. So none is run twice,
  -- before an earlier one, or lost from the queue.
  pub Reach-IsInOrder : (s : System O) → Reach s → IsInOrder s
  Reach-IsInOrder s initially = refl
  Reach-IsInOrder s (step r _ before next) = Step-IsInOrder r s next (Reach-IsInOrder r before)
