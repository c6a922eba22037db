-- ===== src/ModuleManager/Refinement.antt =====
-- The tasks of the loop against the registry that they implement.
pub mod Writes
use mathlib.Core.Option
use mathlib.Core.Path.{fun_ext, ap₂}
use sacs.State.{
  Task, World, handle_message, pass_property_update, process_js_request, proxy_initialized,
  register_module, save_properties_list, unregister_module,
}
use sacs.Prelude.{
  >>=-eq-ok, Bool, List, Text, [], ap, false, if-cases, inl, inr, negsuc, ok, ok_subst,
  ok_subst_snd, refl, sym, true, ◌∙◌, ◌∷◌, ◌≡◌,
}
use sacs.Jni.Delivery.{given}
use sacs.Json.{JsonLib}
use sacs.JsonMsg.Build.{create_module_list}
use sacs.ModuleManager.{
  do_process_js_request, do_register_module, on_proxy_initialized, pass_update, push_all, respond,
  start_server,
}
use sacs.ModuleManager.Frame.{handle_msg-SameRegistry, post_ok-SameRegistry, push_all-SameRegistry}
use sacs.ModuleManager.Registry.{Registered, Registered-at, find-negsuc}
use sacs.ModuleManager.Spec.{Registry, registry, spec_register, spec_request, spec_task, spec_tasks}
use sacs.JsonMsg.{JsonMsg, MsgType, req_apply, req_load}
use sacs.ModuleManager.Answers.{find_id-req_load, pass_update-unknown}
use sacs.ModuleManager.Invariant.{run_task-Registered}
use sacs.ModuleManager.Loop.{enter, perform, run_task, run_tasks}
use sacs.ModuleManager.Refinement.Writes.{
  SameRegistry-registry, do_register_module-spec_register, pass_update-spec_pass,
  save_list-spec_save, unregister-spec_unregister,
}

module _ {J : JsonLib} where
  load_keeps_registry :
      (msg : JsonMsg J) (w : World J) {w' : World J}
      → msg.type ≡ req_load
      → Registered w
      → w.different_thread ≡ false
      → pass_update msg w ≡ ok w'
      → registry w' ≡ registry w
  load_keeps_registry msg w k r d h =
      let same =
        pass_update-unknown msg (negsuc 0) w d (find_id-req_load msg k) (find-negsuc w r 0) in
      ok_subst (λ v. registry v ≡ registry w) (sym same ∙ h) refl

  respond-spec_request :
      (t : MsgType) (msg : JsonMsg J) (w : World J) {response : Text} {w' : World J}
      → msg.type ≡ t
      → Registered w
      → w.different_thread ≡ false
      → respond t msg w ≡ ok (response, w')
      → registry w' ≡ spec_request t msg (registry w)
  unfolding respond
  respond-spec_request req_load msg w k r d h =
      let (list, _, h₁) = >>=-eq-ok (create_module_list J w.modules) _ h in
      let (w₁, passed, done) = >>=-eq-ok (pass_update msg w) _ h₁ in
      ok_subst_snd (λ v. registry v ≡ spec_request req_load msg (registry w)) done
        (load_keeps_registry msg w k r d passed)
  respond-spec_request req_apply msg w k r d h =
      let (w₁, passed, done) = >>=-eq-ok (pass_update msg w) _ h in
      ok_subst_snd (λ v. registry v ≡ spec_request req_apply msg (registry w)) done
        (pass_update-spec_pass msg w d passed)
  respond-spec_request _ msg w k r d h = ok_subst_snd (λ v. registry v ≡ registry w) h refl

  start_server-registry :
      (host_mode : Bool) (w : World J)
      → registry (record (start_server host_mode w) { initialized = true }) ≡ registry w
  start_server-registry true w = refl
  start_server-registry false w = refl

  on_proxy_initialized-registry :
      (host_mode : Bool) (w : World J) {w' : World J}
      → on_proxy_initialized host_mode w ≡ ok w'
      → registry w' ≡ registry w
  unfolding on_proxy_initialized
  on_proxy_initialized-registry host_mode w {w'} h = elim (if-cases w.different_thread _ _ h) [
    | inl (_, e) ↦ SameRegistry-registry w w' (post_ok-SameRegistry _ w e)
    | inr (_, e) ↦
        let (w₁, pushed, done) = >>=-eq-ok (push_all w.msg_queue _) _ e in
        ok_subst (λ v. registry v ≡ registry w) done
          (SameRegistry-registry _ w₁ (push_all-SameRegistry w.msg_queue _ pushed)
            ∙ start_server-registry host_mode w)
  ]

  perform-spec_task :
      (t : Task J) (w : World J) {w' : World J}
      → Registered w
      → w.different_thread ≡ false
      → perform t w ≡ ok w'
      → registry w' ≡ spec_task t (registry w)
  unfolding perform
  perform-spec_task (proxy_initialized host_mode) w {w'} r d h =
      on_proxy_initialized-registry host_mode w h
  perform-spec_task (handle_message msg) w {w'} r d h =
      SameRegistry-registry w w' (handle_msg-SameRegistry msg w h)
  perform-spec_task (unregister_module id) w r d h = unregister-spec_unregister id w d h
  perform-spec_task (save_properties_list id us) w r d h = save_list-spec_save id us w d h
  perform-spec_task (pass_property_update msg) w r d h = pass_update-spec_pass msg w d h
  perform-spec_task (register_module m) w r d h =
      let (p, given, done) = >>=-eq-ok (do_register_module m w) _ h in
      ok_subst (λ v. registry v ≡ spec_register m (registry w)) done
        (do_register_module-spec_register m w r given)
  perform-spec_task (process_js_request msg) w r d h =
      let (p, given, done) = >>=-eq-ok (do_process_js_request msg w) _ h in
      ok_subst (λ v. registry v ≡ spec_request msg.type msg (registry w)) done
        (respond-spec_request msg.type msg w refl r d (unfold do_process_js_request in given))

  run_task-spec_task :
      (t : Task J) (w : World J) {w' : World J}
      → Registered w
      → run_task t w ≡ ok w'
      → registry w' ≡ spec_task t (registry w)
  unfolding run_task
  run_task-spec_task t w r h =
      let (w₁, done, e) = >>=-eq-ok (perform t (enter w)) _ h in
      ok_subst (λ v. registry v ≡ spec_task t (registry w)) e
        (perform-spec_task t (enter w) (Registered-at refl refl r) refl done)

  -- If none of the tasks that the loop runs throws, and the registry is in order before them, then
  -- the registry behind them, seen as a partial map from ids to modules with the next id, is the
  -- one that the abstract operations of ModuleManager/Spec give, in the order of the tasks.
  pub run_tasks_refine :
      (ts : List (Task J)) (w : World J) {w' : World J}
      → Registered w
      → run_tasks ts w ≡ ok w'
      → registry w' ≡ spec_tasks ts (registry w)
  unfolding run_tasks
  run_tasks_refine [] w r h = ok_subst (λ v. registry v ≡ registry w) h refl
  run_tasks_refine (t ∷ ts) w {w'} r h =
      let (w₁, done, h₁) = >>=-eq-ok (run_task t w) (run_tasks ts) h in
      let first = run_task-spec_task t w r done in
      run_tasks_refine ts w₁ (run_task-Registered t w r done) h₁
      ∙ ap (λ (x : Registry). spec_tasks ts x) first
