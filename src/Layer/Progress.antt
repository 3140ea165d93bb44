-- ===== src/Layer/Progress.antt =====
-- No wake-up of a layer's worker is lost, and a layer that runs comes to the end of its queue.
use emane.Base.{
  ℕ, ◌+◌, ◌-◌, Bool, true, false, not, ◌&&◌, ◌||◌, some, List, [], ◌∷◌, ◌++◌, ◌==◌, ltb, ◌≡◌, refl,
  sym, ap, subst, ◌∙◌, arith,
}
use emane.Layer.{
  QueuedTask, Worker, absent, waiting, woken, finished, swapped, busy, Layer, System, start,
  start_from, begin_stop, end_stop, is_joined, is_running, work, work_from, Step, starts,
  begins_stop, ends_stop, enqueues, writes_event, works, Reach, initially, step,
}
use emane.Layer.Order.{some-inj, unless, either, enqueue-same}

or-true : (a b c : Bool) → (a || b || c || true) ≡ true
or-true true b c = refl
or-true false true c = refl
or-true false false true = refl
or-true false false false = refl

-- A layer that is told to cancel does not run.
cancel-stopped :
    (runs cancel last : Bool)
    → cancel ≡ true
    → (not runs || (not cancel && last)) ≡ true
    → runs ≡ false
cancel-stopped false cancel last c h = refl
cancel-stopped true true last c h = cc
cancel-stopped true false last c h = cc

stopped-alive : (runs last : Bool) → runs ≡ false → (not runs || last) ≡ true
stopped-alive true last e = cc
stopped-alive false last e = refl

undisturbed-stopped :
    (stopping runs : Bool) → stopping ≡ true → (not stopping || not runs) ≡ true → runs ≡ false
undisturbed-stopped true true e h = cc
undisturbed-stopped true false e h = refl
undisturbed-stopped false runs e h = cc

or-second : (a b c d : Bool) → b ≡ true → (a || b || c || d) ≡ true
or-second true b c d e = refl
or-second false true c d e = refl
or-second false false c d e = cc

or-third : (a b c d : Bool) → c ≡ true → (a || b || c || d) ≡ true
or-third true b c d e = refl
or-third false true c d e = refl
or-third false false true d e = refl
or-third false false false d e = cc

pos-suc : (n : ℕ) → ltb 0 (n + 1) ≡ true
pos-suc n = ground arith

module _ {ℓ} {O : Type ℓ} where
  abbrev pub is_empty : List (QueuedTask O) → Bool
  is_empty [] = true
  is_empty (t ∷ ts) = false

  abbrev pub is_woken : Worker O → Bool
  is_woken woken = true
  is_woken _ = false

  abbrev pub is_alive : Worker O → Bool
  is_alive absent = false
  is_alive finished = false
  is_alive _ = true

  -- Where there is work, the worker is or will be woken; a layer that runs has a worker, and no one
  -- stops it.
  pub record WillWake (l : Layer O) : Type 0 where
    pub wakes : (is_empty l.queue || ltb 0 l.wakeups || ltb 0 l.writes || is_woken l.worker) ≡ true
    pub alive : (not (is_running l) || (not l.cancel && is_alive l.worker)) ≡ true
    pub undisturbed : (not l.stopping || not (is_running l)) ≡ true

  work_from-WillWake :
      (w : Worker O) (s t : System O)
      → work_from w s ≡ some t
      → WillWake (record s.layer { worker = w })
      → WillWake t.layer
  unfolding is_running
  work_from-WillWake absent s t f h = cc
  work_from-WillWake finished s t f h = cc
  work_from-WillWake waiting s t f h =
      unless (λ x. WillWake x.layer) (s.layer.wakeups == 0) f
        (record {
          wakes = or-true (is_empty s.layer.queue) false (ltb 0 s.layer.writes);
          alive = h.alive;
          undisturbed = h.undisturbed;
        })
  work_from-WillWake woken s t f h =
      subst (λ x. WillWake x.layer) (some-inj f)
        (record { wakes = refl; alive = h.alive; undisturbed = h.undisturbed })
  work_from-WillWake (swapped batch) s t f h =
      either (λ x. WillWake x.layer) s.layer.cancel f
        (λ c. record {
          wakes = h.wakes;
          alive =
              stopped-alive (is_running s.layer) _
                (cancel-stopped (is_running s.layer) s.layer.cancel true c h.alive);
          undisturbed = h.undisturbed;
        })
        (λ _. record { wakes = h.wakes; alive = h.alive; undisturbed = h.undisturbed })
  work_from-WillWake (busy []) s t f h =
      subst (λ x. WillWake x.layer) (some-inj f)
        (record { wakes = h.wakes; alive = h.alive; undisturbed = h.undisturbed })
  work_from-WillWake (busy (task ∷ batch)) s t f h =
      subst (λ x. WillWake x.layer) (some-inj f)
        (record { wakes = h.wakes; alive = h.alive; undisturbed = h.undisturbed })

  start_from-WillWake :
      (w : Worker O) (l : Layer O)
      → l.stopping ≡ false
      → WillWake (record l { worker = w })
      → l.worker ≡ w
      → WillWake (start_from w l)
  unfolding is_running
  start_from-WillWake absent l q h e = record {
    wakes = h.wakes;
    alive = refl;
    undisturbed = ap (λ b. not b || false) q;
  }
  start_from-WillWake waiting l q h e = subst (λ v. WillWake (record l { worker = v })) (sym e) h
  start_from-WillWake woken l q h e = subst (λ v. WillWake (record l { worker = v })) (sym e) h
  start_from-WillWake finished l q h e = subst (λ v. WillWake (record l { worker = v })) (sym e) h
  start_from-WillWake (swapped batch) l q h e =
      subst (λ v. WillWake (record l { worker = v })) (sym e) h
  start_from-WillWake (busy batch) l q h e =
      subst (λ v. WillWake (record l { worker = v })) (sym e) h

  -- A worker that is joined was not woken.
  joined-woken : (w : Worker O) → is_joined w ≡ true → is_woken w ≡ false
  unfolding is_joined
  joined-woken absent h = refl
  joined-woken finished h = refl
  joined-woken waiting h = refl
  joined-woken woken h = cc
  joined-woken (swapped batch) h = refl
  joined-woken (busy batch) h = refl

  Step-WillWake : (s t : System O) → Step s t → WillWake s.layer → WillWake t.layer
  unfolding work begin_stop end_stop start is_running
  Step-WillWake s t (starts _ q) h = start_from-WillWake s.layer.worker s.layer q h refl
  Step-WillWake s t (begins_stop _ _) h = record {
    wakes =
        or-third (is_empty s.layer.queue) (ltb 0 s.layer.wakeups) _ (is_woken s.layer.worker)
          (pos-suc s.layer.writes);
    alive = refl;
    undisturbed = refl;
  }
  Step-WillWake s t (ends_stop _ on joined) h = record {
    wakes =
        ap (λ b. is_empty s.layer.queue || ltb 0 s.layer.wakeups || ltb 0 s.layer.writes || b)
          (sym (joined-woken s.layer.worker joined))
        ∙ h.wakes;
    alive =
        stopped-alive (is_running s.layer) false
          (undisturbed-stopped s.layer.stopping (is_running s.layer) on h.undisturbed);
    undisturbed = refl;
  }
  Step-WillWake s t (enqueues _ task l e) h =
      subst WillWake (enqueue-same s.layer l task e) (record {
        wakes =
            or-third (is_empty (s.layer.queue ++ (task ∷ []))) (ltb 0 s.layer.wakeups) _
              (is_woken s.layer.worker) (pos-suc s.layer.writes);
        alive = h.alive;
        undisturbed = h.undisturbed;
      })
  Step-WillWake s t (writes_event _ _) h = record {
    wakes =
        or-second (is_empty s.layer.queue) _ (ltb 0 (s.layer.writes - 1)) (is_woken s.layer.worker)
          (pos-suc s.layer.wakeups);
    alive = h.alive;
    undisturbed = h.undisturbed;
  }
  Step-WillWake s t (works _ _ f) h = work_from-WillWake s.layer.worker s t f h

  pub Reach-WillWake : (s : System O) → Reach s → WillWake s.layer
  unfolding is_running
  Reach-WillWake s initially = record { wakes = refl; alive = refl; undisturbed = refl }
  Reach-WillWake s (step r _ before next) = Step-WillWake r s next (Reach-WillWake r before)
