-- ===== src/Examples/Callbacks.antt =====
-- Two callbacks on their way to Java, at concrete inputs.
use sacs.Prelude.{Bool, List, [], codes, false, none, pos, refl, some, true, ◌++◌, ◌==ℤ◌, ◌∷◌, ◌≡◌}
use sacs.Jni.{
  Action, Collector, CollectorLaws, Glue, QueuedCallback, add_callback, awake, call_java, check,
  glue_run, glue_step, notify, start_glue, take, waiting, wake,
}
use sacs.Jni.Deadlock.{crossing, java_waits_forever}
use sacs.Jni.Delivery.{given, no_callback_lost}
use sacs.Jni.Progress.{every_callback_called}

abbrev list_collector : Collector
list_collector = record {
  Store = List QueuedCallback;
  empty = [];
  add = λ s c. s ++ c ∷ [];
  collect = λ s. (s, []);
  contents = λ s. s;
}

list_collector-CollectorLaws : CollectorLaws list_collector
list_collector-CollectorLaws = record {
  contents-empty = refl;
  contents-add = λ s c. refl;
  collected = λ s. refl;
  collect-empties = λ s. refl;
}

abbrev turned_off : QueuedCallback
turned_off = record { module_id = pos 5; update_vec = (pos 0, codes "0") ∷ [] }

abbrev other_switched : QueuedCallback
other_switched = record { module_id = pos 6; update_vec = (pos 0, codes "0") ∷ [] }

abbrev switched_on : QueuedCallback
switched_on = record { module_id = pos 5; update_vec = (pos 0, codes "1") ∷ [] }

-- Java registers a module when module 6 is updated, or at no update.
abbrev only_others : QueuedCallback → Bool
only_others c = c.module_id ==ℤ pos 6

abbrev in_none : QueuedCallback → Bool
in_none c = false

-- The second callback is added while the message thread holds the mutex.
abbrev actions : List (Action list_collector)
actions =
    add_callback turned_off
    ∷ check true
    ∷ notify
    ∷ wake
    ∷ add_callback switched_on
    ∷ take
    ∷ call_java
    ∷ call_java
    ∷ call_java
    ∷ notify
    ∷ check true
    ∷ wake
    ∷ take
    ∷ call_java
    ∷ check true
    ∷ []

abbrev end_glue : Glue list_collector
end_glue = record (start_glue list_collector) {
  phase = waiting;
  java_calls = turned_off ∷ switched_on ∷ [];
}

no_callback_lost_example : end_glue.java_calls ≡ given list_collector actions
unfolding glue_run
no_callback_lost_example =
    no_callback_lost list_collector only_others list_collector-CollectorLaws actions end_glue refl
      refl refl refl

abbrev early_actions : List (Action list_collector)
early_actions = add_callback turned_off ∷ check true ∷ notify ∷ wake ∷ []

abbrev early_glue : Glue list_collector
early_glue = record (start_glue list_collector) { collector = turned_off ∷ []; phase = awake }

java_waits_forever_example :
    (g : Glue list_collector) × (glue_run list_collector only_others
        (crossing list_collector other_switched turned_off)
        (start_glue list_collector)
      ≡ some g)
    × ((a : Action list_collector) → glue_step list_collector only_others a g ≡ none)
    × (g.java_calls ≡ [])
java_waits_forever_example =
    java_waits_forever list_collector only_others list_collector-CollectorLaws other_switched
      turned_off refl

every_callback_called_example :
    (more : List (Action list_collector)) × (g' : Glue list_collector) × (given list_collector more
      ≡ [])
    × (glue_run list_collector in_none (early_actions ++ more) (start_glue list_collector)
        ≡ some g')
    × (g'.java_calls ≡ turned_off ∷ [])
unfolding glue_run
every_callback_called_example =
    every_callback_called list_collector in_none (λ c. refl) list_collector-CollectorLaws
      early_actions early_glue refl (λ h. cc)
