-- ===== src/Jni/Delivery.antt =====
-- The callbacks on their way to Java, in every interleaving of the two threads.
use sacs.Prelude.{
  Bool, Bool-cases, List, [], ap, append-nil, append_assoc, arith, elim-cases, false, inl, inr,
  refl, some, subst, sym, true, ◌&&◌, ◌++◌, ◌||◌, ◌∙◌, ◌∷◌, ◌≡◌,
}
use sacs.Jni.{
  Action, Collector, CollectorLaws, Glue, Phase, QueuedCallback, add_callback, awake, call_java,
  calling, check, checking, glue_run, glue_step, notify, on_call, on_check, on_take, on_wake,
  start_glue, take, waiting, wake,
}

pub some_injective : {A : Type 0} {a b : A} → some a ≡ some b → a ≡ b
some_injective h = cc

some_subst : {A : Type 0} (P : A → Type 0) {a b : A} → some a ≡ some b → P a → P b
some_subst P h x = subst P (some_injective h) x

module _ (C : Collector) where
  open C use {Store, empty, add, collect, contents}

  abbrev pub in_hand : Phase C → List QueuedCallback
  in_hand (calling cs) = cs
  in_hand _ = []

  -- The callbacks that were called or are on their way, in order.
  abbrev pub all_callbacks : Glue C → List QueuedCallback
  all_callbacks g = g.java_calls ++ (in_hand g.phase ++ contents g.collector)

  abbrev pub given : List (Action C) → List QueuedCallback
  given [] = []
  given (add_callback c ∷ rest) = c ∷ given rest
  given (_ ∷ rest) = given rest

  pub given-cons :
      (a : Action C) (rest : List (Action C)) → given (a ∷ []) ++ given rest ≡ given (a ∷ rest)
  given-cons (add_callback c) rest = refl
  given-cons _ rest = refl

  abbrev is_awake : Phase C → Bool
  is_awake awake = true
  is_awake _ = false

  -- Something will make the message thread collect.
  abbrev pub will_collect : Glue C → Bool
  will_collect g = g.is_ready || g.to_notify || is_awake g.phase

  abbrev pub NoneForgotten : Glue C → Type 0
  NoneForgotten g = will_collect g ≡ false → contents g.collector ≡ []

  module _ (needs_loop : QueuedCallback → Bool) (L : CollectorLaws C) where
    on_take-all_callbacks :
        (p : Phase C) (g g' : Glue C)
        → g.phase ≡ p
        → on_take C p g ≡ some g'
        → all_callbacks g' ≡ all_callbacks g
    on_take-all_callbacks awake g g' e h =
        some_subst (λ x. all_callbacks x ≡ all_callbacks g) h
          (rw
            (
              e,
              L.collected g.collector,
              L.collect-empties g.collector,
              append-nil (contents g.collector),
            )
            refl)
    on_take-all_callbacks _ g g' e h = cc

    on_call-all_callbacks :
        (p : Phase C) (g g' : Glue C)
        → g.phase ≡ p
        → on_call C needs_loop p g ≡ some g'
        → all_callbacks g' ≡ all_callbacks g
    on_call-all_callbacks (calling []) g g' e h =
        some_subst (λ x. all_callbacks x ≡ all_callbacks g) h (rw e refl)
    on_call-all_callbacks (calling (c ∷ cs)) g g' e h =
        elim (Bool-cases (needs_loop c && g.to_notify)) [
          | inl stuck ↦ cc (rw stuck at h)
          | inr goes_on ↦
              some_subst (λ x. all_callbacks x ≡ all_callbacks g) (rw goes_on at h)
                (rw (e, append_assoc g.java_calls (c ∷ []) (cs ++ contents g.collector)) refl)
        ]
    on_call-all_callbacks _ g g' e h = cc

    on_wake-all_callbacks :
        (p : Phase C) (g g' : Glue C)
        → g.phase ≡ p
        → on_wake C p g ≡ some g'
        → all_callbacks g' ≡ all_callbacks g
    on_wake-all_callbacks waiting g g' e h = ground arith
    on_wake-all_callbacks _ g g' e h = cc

    on_check-all_callbacks :
        (b : Bool) (p : Phase C) (g g' : Glue C)
        → g.phase ≡ p
        → on_check C b p g ≡ some g'
        → all_callbacks g' ≡ all_callbacks g
    on_check-all_callbacks b checking g g' e h = ground arith
    on_check-all_callbacks b _ g g' e h = cc

    step-all_callbacks :
        (a : Action C) (g g' : Glue C)
        → glue_step C needs_loop a g ≡ some g'
        → all_callbacks g' ≡ all_callbacks g ++ given (a ∷ [])
    unfolding glue_step
    step-all_callbacks (add_callback c) g g' h = ground (
      arith,
      L.contents-add g.collector c,
      append_assoc g.java_calls (in_hand g.phase ++ contents g.collector) (c ∷ []),
      append_assoc (in_hand g.phase) (contents g.collector) (c ∷ []),
    )
    step-all_callbacks notify g g' h = ground (arith, append-nil (all_callbacks g))
    step-all_callbacks wake g g' h =
        on_wake-all_callbacks g.phase g g' refl h ∙ sym (append-nil (all_callbacks g))
    step-all_callbacks take g g' h =
        on_take-all_callbacks g.phase g g' refl h ∙ sym (append-nil (all_callbacks g))
    step-all_callbacks call_java g g' h =
        on_call-all_callbacks g.phase g g' refl h ∙ sym (append-nil (all_callbacks g))
    step-all_callbacks (check b) g g' h =
        on_check-all_callbacks b g.phase g g' refl h ∙ sym (append-nil (all_callbacks g))

    step-NoneForgotten :
        (a : Action C) (g g' : Glue C)
        → glue_step C needs_loop a g ≡ some g'
        → NoneForgotten g
        → NoneForgotten g'
    unfolding glue_step
    step-NoneForgotten a g g' h n = ground (arith, L.collect-empties g.collector)

    run-all_callbacks :
        (acts : List (Action C)) (g : Glue C) {g' : Glue C}
        → glue_run C needs_loop acts g ≡ some g'
        → all_callbacks g' ≡ all_callbacks g ++ given acts
    unfolding glue_run
    run-all_callbacks [] g h =
        some_subst (λ x. all_callbacks x ≡ all_callbacks g ++ []) h
          (sym (append-nil (all_callbacks g)))
    run-all_callbacks (a ∷ acts) g {g'} h = elim (elim-cases (glue_step C needs_loop a g) _ _ h) [
      | inl (_, e) ↦ cc
      | inr (g₁, e, ran) ↦
          run-all_callbacks acts g₁ ran
          ∙ ap (λ (xs : List QueuedCallback). xs ++ given acts) (step-all_callbacks a g g₁ e)
          ∙ append_assoc (all_callbacks g) (given (a ∷ [])) (given acts)
          ∙ ap (λ (xs : List QueuedCallback). all_callbacks g ++ xs) (given-cons a acts)
    ]

    run-NoneForgotten :
        (acts : List (Action C)) (g : Glue C) {g' : Glue C}
        → glue_run C needs_loop acts g ≡ some g'
        → NoneForgotten g
        → NoneForgotten g'
    unfolding glue_run
    run-NoneForgotten [] g h n = some_subst NoneForgotten h n
    run-NoneForgotten (a ∷ acts) g {g'} h n = elim (elim-cases (glue_step C needs_loop a g) _ _ h) [
      | inl (_, e) ↦ cc
      | inr (g₁, e, ran) ↦ run-NoneForgotten acts g₁ ran (step-NoneForgotten a g g₁ e n)
    ]

    -- Whatever the interleaving of the two threads from the start, the callbacks that were called
    -- in Java, then those in the hand of the message thread, then those in the collector, are the
    -- ones that were given, in order.
    pub callbacks_in_order :
        (acts : List (Action C)) (g : Glue C)
        → glue_run C needs_loop acts (start_glue C) ≡ some g
        → g.java_calls ++ (in_hand g.phase ++ contents g.collector) ≡ given acts
    callbacks_in_order acts g h =
        run-all_callbacks acts (start_glue C) h
        ∙ ap (λ (xs : List QueuedCallback). xs ++ given acts) L.contents-empty

    -- Whatever the interleaving of the two threads from the start: when the message thread waits,
    -- its flag is not set, and no notification is outstanding, every callback that was given has
    -- been called in Java, once and in order.
    pub no_callback_lost :
        (acts : List (Action C)) (g : Glue C)
        → glue_run C needs_loop acts (start_glue C) ≡ some g
        → g.phase ≡ waiting
        → g.is_ready ≡ false
        → g.to_notify ≡ false
        → g.java_calls ≡ given acts
    no_callback_lost acts g h p r t =
        let n : NoneForgotten (start_glue C) = λ _. L.contents-empty in
        let none_left : contents g.collector ≡ [] =
          run-NoneForgotten acts (start_glue C) h n (ground arith) in
        sym (append-nil g.java_calls) ∙ rw (← callbacks_in_order acts g h, p, none_left) refl
