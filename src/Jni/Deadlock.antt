-- ===== src/Jni/Deadlock.antt =====
-- A callback in which Java waits for the loop, while the loop waits for the mutex of Notify.
use sacs.Prelude.{Bool, List, [], ap, false, none, refl, some, true, ◌++◌, ◌∙◌, ◌∷◌, ◌≡◌}
use sacs.Jni.{
  Action, Collector, CollectorLaws, Glue, QueuedCallback, add_callback, call_java, calling, check,
  glue_run, glue_step, notify, start_glue, take, wake,
}

module _ (C : Collector) where
  open C use {empty, add, collect, contents}

  -- The second callback is added while the message thread has the mutex.
  abbrev pub crossing : QueuedCallback → QueuedCallback → List (Action C)
  crossing c c' = add_callback c ∷ check true ∷ notify ∷ wake ∷ add_callback c' ∷ take ∷ []

  module _ (needs_loop : QueuedCallback → Bool) where
    -- The loop's thread is before Notify, and the message thread at a call that waits for the loop.
    stuck :
        (c : QueuedCallback) (cs : List QueuedCallback) (g : Glue C) (a : Action C)
        → needs_loop c ≡ true
        → g.to_notify ≡ true
        → g.phase ≡ calling (c ∷ cs)
        → glue_step C needs_loop a g ≡ none
    unfolding glue_step
    stuck c cs g (add_callback x) h t p = rw t refl
    stuck c cs g notify h t p = rw (t, p) refl
    stuck c cs g wake h t p = rw p refl
    stuck c cs g take h t p = rw p refl
    stuck c cs g call_java h t p = rw (p, h, t) refl
    stuck c cs g (check b) h t p = rw p refl

    -- Whatever the collector, two callbacks, in the first of which Java waits for the loop: where
    -- the second is added while the message thread has the mutex, which the two threads can come to
    -- from the start, neither of the threads can take any further action, and no call of Java has
    -- returned.
    pub java_waits_forever :
        (L : CollectorLaws C) (c c' : QueuedCallback)
        → needs_loop c ≡ true
        → (g : Glue C) × (glue_run C needs_loop (crossing c c') (start_glue C) ≡ some g)
          × ((a : Action C) → glue_step C needs_loop a g ≡ none)
          × (g.java_calls ≡ [])
    unfolding glue_run glue_step
    java_waits_forever L c c' h =
        let s = add (add empty c) c' in
        let all : (collect s).0 ≡ c ∷ c' ∷ [] =
          L.collected s
          ∙ L.contents-add (add empty c) c'
          ∙ ap (λ (cs : List QueuedCallback). cs ++ c' ∷ [])
              (L.contents-add empty c
                ∙ ap (λ (cs : List QueuedCallback). cs ++ c ∷ []) L.contents-empty) in
        let g : Glue C = record {
          collector = (collect s).1;
          is_ready = false;
          to_notify = true;
          phase = calling (c ∷ c' ∷ []);
          java_calls = [];
        } in
        (g, rw all refl, λ a. stuck c (c' ∷ []) g a h refl refl, refl)
