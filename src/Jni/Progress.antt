-- ===== src/Jni/Progress.antt =====
-- The message thread is never stuck: from every state it can call Java with all that was given.
use sacs.Jni.{
  Action, Collector, CollectorLaws, Glue, Phase, QueuedCallback, add_callback, awake, call_java,
  calling, check, checking, glue_run, glue_step, notify, start_glue, stopped, take, waiting, wake,
}
use sacs.Prelude.{
  Bool, Bool-cases, List, [], ap, append-nil, arith, elim-cases, false, inl, inr, refl, some, sym,
  true, ◌++◌, ◌∙◌, ◌∷◌, ◌≡◌, ◌≢◌,
}
use sacs.Jni.Delivery.{given, given-cons, no_callback_lost, some_injective}

module _ (C : Collector) (needs_loop : QueuedCallback → Bool) where
  open C use {contents}

  -- Both threads can go on, with no new callback, to where the message thread waits for one.
  pub record CanRest (g : Glue C) : Type 0 where
    pub actions : List (Action C)
    pub rest : Glue C
    pub ran : glue_run C needs_loop actions g ≡ some rest
    pub none_given : given C actions ≡ []
    pub waits : rest.phase ≡ waiting
    pub not_ready : rest.is_ready ≡ false
    pub notified : rest.to_notify ≡ false

  CanRest-later :
      (a : Action C) (g g' : Glue C)
      → glue_step C needs_loop a g ≡ some g'
      → given C (a ∷ []) ≡ []
      → CanRest g'
      → CanRest g
  unfolding glue_run
  CanRest-later a g g' h n r = record {
    actions = a ∷ r.actions;
    rest = r.rest;
    ran = rw (h, glue_run) r.ran;
    none_given = sym (given-cons C a r.actions) ∙ rw (n, r.none_given) refl;
    waits = r.waits;
    not_ready = r.not_ready;
    notified = r.notified;
  }

  waiting-CanRest :
      (g : Glue C) → g.phase ≡ waiting → g.is_ready ≡ false → g.to_notify ≡ false → CanRest g
  unfolding glue_run
  waiting-CanRest g p r n = record {
    actions = [];
    rest = g;
    ran = refl;
    none_given = refl;
    waits = p;
    not_ready = r;
    notified = n;
  }

  -- Where no notification is outstanding and the flag is not set.
  module _ (g : Glue C) (r : g.is_ready ≡ false) (n : g.to_notify ≡ false) where
    checking-CanRest : g.phase ≡ checking → CanRest g
    unfolding glue_step
    checking-CanRest p =
        CanRest-later (check true) g (record g { phase = waiting }) (ground arith) refl
          (waiting-CanRest (record g { phase = waiting }) refl r n)

  calling-CanRest :
      ((c : QueuedCallback) → needs_loop c ≡ false)
      → (cs : List QueuedCallback) (g : Glue C) → g.is_ready ≡ false
      → g.to_notify ≡ false
      → g.phase ≡ calling cs
      → CanRest g
  unfolding glue_step
  calling-CanRest never [] g r n p =
      CanRest-later call_java g (record g { phase = checking }) (ground arith) refl
        (checking-CanRest (record g { phase = checking }) r n refl)
  calling-CanRest never (c ∷ cs) g r n p =
      let g' = record g { phase = calling cs; java_calls = g.java_calls ++ c ∷ [] } in
      CanRest-later call_java g g' (ground (arith, never c)) refl
        (calling-CanRest never cs g' r n refl)

  awake-CanRest :
      ((c : QueuedCallback) → needs_loop c ≡ false)
      → (g : Glue C) → g.is_ready ≡ false
      → g.to_notify ≡ false
      → g.phase ≡ awake
      → CanRest g
  unfolding glue_step
  awake-CanRest never g r n p =
      let taken = C.collect g.collector in
      let g' = record g { collector = taken.1; phase = calling taken.0 } in
      CanRest-later take g g' (ground arith) refl (calling-CanRest never taken.0 g' r n refl)

  ready-CanRest :
      ((c : QueuedCallback) → needs_loop c ≡ false)
      → (g : Glue C) → g.phase ≡ waiting
      → g.is_ready ≡ true
      → g.to_notify ≡ false
      → CanRest g
  unfolding glue_step
  ready-CanRest never g p r n =
      let g' = record g { is_ready = false; phase = awake } in
      CanRest-later wake g g' (ground arith) refl (awake-CanRest never g' refl n refl)

  -- Where a notification may be outstanding.
  any_waiting-CanRest :
      ((c : QueuedCallback) → needs_loop c ≡ false) → (g : Glue C) → g.phase ≡ waiting → CanRest g
  unfolding glue_step
  any_waiting-CanRest never g p = elim (Bool-cases g.to_notify) [
    | inl n ↦
        let g' = record g { is_ready = true; to_notify = false } in
        CanRest-later notify g g' (ground arith) refl (ready-CanRest never g' p refl refl)
    | inr n ↦ elim (Bool-cases g.is_ready) [
      | inl r ↦ ready-CanRest never g p r n
      | inr r ↦ waiting-CanRest g p r n
    ]
  ]

  any_checking-CanRest :
      ((c : QueuedCallback) → needs_loop c ≡ false) → (g : Glue C) → g.phase ≡ checking → CanRest g
  unfolding glue_step
  any_checking-CanRest never g p =
      let g' = record g { phase = waiting } in
      CanRest-later (check true) g g' (ground arith) refl (any_waiting-CanRest never g' refl)

  any_calling-CanRest :
      ((c : QueuedCallback) → needs_loop c ≡ false)
      → (cs : List QueuedCallback) (g : Glue C) → g.phase ≡ calling cs
      → CanRest g
  unfolding glue_step
  any_calling-CanRest never [] g p =
      let g' = record g { phase = checking } in
      CanRest-later call_java g g' (ground arith) refl (any_checking-CanRest never g' refl)
  any_calling-CanRest never (c ∷ cs) g p =
      let g' = record g { phase = calling cs; java_calls = g.java_calls ++ c ∷ [] } in
      CanRest-later call_java g g' (ground (arith, never c)) refl
        (any_calling-CanRest never cs g' refl)

  any_awake-CanRest :
      ((c : QueuedCallback) → needs_loop c ≡ false) → (g : Glue C) → g.phase ≡ awake → CanRest g
  unfolding glue_step
  any_awake-CanRest never g p =
      let taken = C.collect g.collector in
      let g' = record g { collector = taken.1; phase = calling taken.0 } in
      CanRest-later take g g' (ground arith) refl (any_calling-CanRest never taken.0 g' refl)

  phase-CanRest :
      ((c : QueuedCallback) → needs_loop c ≡ false)
      → (p : Phase C) (g : Glue C) → g.phase ≡ p
      → p ≢ stopped
      → CanRest g
  phase-CanRest never checking g e n = any_checking-CanRest never g e
  phase-CanRest never waiting g e n = any_waiting-CanRest never g e
  phase-CanRest never awake g e n = any_awake-CanRest never g e
  phase-CanRest never stopped g e n = absurd (n refl)
  phase-CanRest never (calling cs) g e n = any_calling-CanRest never cs g e

  glue_run-append :
      (xs ys : List (Action C)) (g g' : Glue C) {g'' : Glue C}
      → glue_run C needs_loop xs g ≡ some g'
      → glue_run C needs_loop ys g' ≡ some g''
      → glue_run C needs_loop (xs ++ ys) g ≡ some g''
  unfolding glue_run
  glue_run-append [] ys g g' h k = rw (some_injective h) k
  glue_run-append (a ∷ xs) ys g g' h k = elim (elim-cases (glue_step C needs_loop a g) _ _ h) [
    | inl (_, e) ↦ cc
    | inr (g₁, e, ran) ↦ rw (e, glue_run) (glue_run-append xs ys g₁ g' ran k)
  ]

  given-append : (xs ys : List (Action C)) → given C (xs ++ ys) ≡ given C xs ++ given C ys
  given-append [] ys = refl
  given-append (add_callback c ∷ xs) ys =
      ap (λ (l : List QueuedCallback). c ∷ l) (given-append xs ys)
  given-append (_ ∷ xs) ys = given-append xs ys

  -- Where Java waits for the loop in no callback: from every point that the two threads can reach
  -- at which the message thread has not stopped, there are further actions, none of which gives a
  -- callback, after which every callback that was given has been called in Java, once and in order.
  pub every_callback_called :
      ((c : QueuedCallback) → needs_loop c ≡ false)
      → (L : CollectorLaws C) (acts : List (Action C)) (g : Glue C)
      → glue_run C needs_loop acts (start_glue C) ≡ some g
      → g.phase ≢ stopped
      → (more : List (Action C)) × (g' : Glue C) × (given C more ≡ [])
        × (glue_run C needs_loop (acts ++ more) (start_glue C) ≡ some g')
        × (g'.java_calls ≡ given C acts)
  every_callback_called never L acts g h n =
      let r = phase-CanRest never g.phase g refl n in
      let ran = glue_run-append acts r.actions (start_glue C) g h r.ran in
      (
        r.actions,
        r.rest,
        r.none_given,
        ran,
        no_callback_lost C needs_loop L (acts ++ r.actions) r.rest ran r.waits r.not_ready
              r.notified
            ∙ given-append acts r.actions
            ∙ rw r.none_given (append-nil (given C acts)),
      )
