-- ===== src/Jni.antt =====
-- wrappers/android/jni/src/JniGlue.cpp and MsgThread.cpp: how a callback on the loop's thread becomes
-- a call of Java on another thread. Each thread goes on by actions, in any interleaving.
pub mod Delivery
pub mod Progress
pub mod Deadlock
pub mod Java
use sacs.Prelude.{
  Bool, List, Option, Result, Text, [], false, if◌then◌else◌, none, ok, some, true, ℕ, ℤ, ◌&&◌,
  ◌++◌, ◌>>=◌, ◌∷◌, ◌≡◌,
}
use sacs.SacsLib.{read_from, read_update_at}

pub record QueuedCallback : Type 0 where
  pub module_id : ℤ
  pub update_vec : List (ℤ × Text)

-- The start of JniGlue::InternalCallback
unfoldable pub read_callback : ℤ → ℕ → List ℤ → List Text → Result QueuedCallback
unfolding read_from read_update_at
read_callback module_id count property_no property_val = do
  update_vec ← read_from (read_update_at property_no property_val) count 0
  ok (record { module_id = module_id; update_vec = update_vec })

-- Collector of the network library: `contents` tells what was added and not yet collected.
pub record Collector : Type 1 where
  pub Store : Type 0
  pub empty : Store
  pub add : Store → QueuedCallback → Store
  pub collect : Store → List QueuedCallback × Store
  pub contents : Store → List QueuedCallback

module _ (C : Collector) where
  open C use {Store, empty, add, collect, contents}

  pub record CollectorLaws : Type 0 where
    pub contents-empty : contents empty ≡ []
    pub contents-add : (s : Store) (c : QueuedCallback) → contents (add s c) ≡ contents s ++ c ∷ []
    pub collected : (s : Store) → (collect s).0 ≡ contents s
    pub collect-empties : (s : Store) → contents (collect s).1 ≡ []

  -- Where MsgThread::OnThreadStarted stands: at the test of the loop; in the wait, which gives the
  -- mutex up; behind the wait; in the loop of CallJavaPropertiesUpdate; behind the loop.
  pub data Phase : Type 0 where
    checking waiting awake stopped : Phase
    calling : List QueuedCallback → Phase

  pub record Glue : Type 0 where
    pub collector : Store
    pub is_ready : Bool
    -- The loop's thread is between Add and Notify.
    pub to_notify : Bool
    pub phase : Phase
    pub java_calls : List QueuedCallback

  abbrev pub start_glue : Glue
  start_glue = record {
    collector = empty;
    is_ready = false;
    to_notify = false;
    phase = checking;
    java_calls = [];
  }

  -- `check` has the value of ShouldRun.
  pub data Action : Type 0 where
    add_callback : QueuedCallback → Action
    notify wake take call_java : Action
    check : Bool → Action

  -- The mutex is free for Notify.
  abbrev pub unlocked : Phase → Bool
  unlocked awake = false
  unlocked (calling cs) = false
  unlocked _ = true

  -- The test of the loop in MsgThread::OnThreadStarted
  abbrev pub on_check : Bool → Phase → Glue → Option Glue
  on_check should_run checking g =
      some (record g { phase = if should_run then waiting else stopped })
  on_check should_run _ g = none

  -- The wait, and the reset of the flag
  abbrev pub on_wake : Phase → Glue → Option Glue
  on_wake waiting g =
      if g.is_ready then some (record g { is_ready = false; phase = awake }) else none
  on_wake _ g = none

  -- The call of Collect in JniGlue::CallJavaPropertiesUpdate
  abbrev pub on_take : Phase → Glue → Option Glue
  on_take awake g =
      let (cs, s) = collect g.collector in some (record g { collector = s; phase = calling cs })
  on_take _ g = none

  -- `needs_loop` tells of a callback whether Java, when it is called with it, waits for the loop, as a
  -- registration does. Java is called with the mutex held.
  module _ (needs_loop : QueuedCallback → Bool) where
    -- One round of the loop of JniGlue::CallJavaPropertiesUpdate, or its end. Where Java waits for
    -- the loop while the loop's thread waits for the mutex in Notify, the call does not return.
    abbrev pub on_call : Phase → Glue → Option Glue
    on_call (calling (c ∷ cs)) g =
        if needs_loop c && g.to_notify
        then none
        else some (record g { phase = calling cs; java_calls = g.java_calls ++ c ∷ [] })
    on_call (calling []) g = some (record g { phase = checking })
    on_call _ g = none

    -- One action, if the thread that takes it can.
    unfoldable pub glue_step : Action → Glue → Option Glue
    glue_step (add_callback c) g =
        if g.to_notify
        then none
        else some (record g { collector = add g.collector c; to_notify = true })
    glue_step notify g =
        if g.to_notify && unlocked g.phase
        then some (record g { is_ready = true; to_notify = false })
        else none
    glue_step wake g = on_wake g.phase g
    glue_step take g = on_take g.phase g
    glue_step call_java g = on_call g.phase g
    glue_step (check should_run) g = on_check should_run g.phase g

    unfoldable pub glue_run : List Action → Glue → Option Glue
    unfolding glue_step
    glue_run [] g = some g
    glue_run (a ∷ rest) g = elim (glue_step a g) [ none ↦ none | some g' ↦ glue_run rest g' ]
