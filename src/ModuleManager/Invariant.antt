-- ===== src/ModuleManager/Invariant.antt =====
-- The registry of modules under the tasks of the loop.
use sacs.Maps.{find}
use sacs.Prelude.{
  >>=-eq-ok, Bool, List, Text, [], elim-cases, false, if-cases, inl, inr, ok, ok_subst,
  ok_subst_snd, refl, true, ℤ, ◌∷◌, ◌≡◌,
}
use sacs.State.{
  Task, World, handle_message, pass_property_update, post, process_js_request, proxy_initialized,
  register_module, save_properties_list, unregister_module,
}
use sacs.Json.{JsonLib}
use sacs.JsonMsg.{JsonMsg, MsgType, find_id, get_properties_list, req_apply, req_load}
use sacs.Module.{Module}
use sacs.ModuleManager.{
  deliver, do_process_js_request, do_register_module, on_proxy_initialized, pass_update, push_all,
  respond, save_list, start_server,
}
use sacs.ModuleManager.Frame.{
  emit_ok-SameRegistry, handle_msg-SameRegistry, handle_property_update-SameRegistry,
  post_ok-SameRegistry, push_all-SameRegistry,
}
use sacs.ModuleManager.Registry.{
  Registered, Registered-at, SameRegistry-Registered, do_register_module-Registers,
  save_list-Registered, unregister-Registered,
}
use sacs.JsonMsg.Build.{create_module_list}
use sacs.ModuleManager.Loop.{enter, perform, run_task, run_tasks}

module _ {J : JsonLib} where
  start_server-Registered :
      (host_mode : Bool) (w : World J)
      → Registered w
      → Registered (record (start_server host_mode w) { initialized = true })
  start_server-Registered true w r = Registered-at refl refl r
  start_server-Registered false w r = Registered-at refl refl r

  on_proxy_initialized-Registered :
      (host_mode : Bool) (w : World J) {w' : World J}
      → Registered w
      → on_proxy_initialized host_mode w ≡ ok w'
      → Registered w'
  unfolding on_proxy_initialized
  on_proxy_initialized-Registered host_mode w {w'} r h = elim (if-cases w.different_thread _ _ h) [
    | inl (_, e) ↦ SameRegistry-Registered (post_ok-SameRegistry _ w e) r
    | inr (_, e) ↦
        let (w₁, pushed, done) = >>=-eq-ok (push_all w.msg_queue _) _ e in
        let r₁ = start_server-Registered host_mode w r in
        let s = push_all-SameRegistry w.msg_queue _ pushed in
        ok_subst Registered done (Registered-at refl refl (SameRegistry-Registered s r₁))
  ]

  deliver-Registered :
      (id : ℤ) (m : Module) (msg : JsonMsg J) (us : List (ℤ × Text)) (w : World J) {w' : World J}
      → Registered w
      → deliver id m msg us w ≡ ok w'
      → Registered w'
  unfolding deliver
  deliver-Registered id m msg [] w r h = ok_subst Registered h r
  deliver-Registered id m msg (u ∷ us) w r h =
      let (w₁, saved, h') = >>=-eq-ok (save_list id (u ∷ us) w) _ h in
      let r₁ = save_list-Registered id (u ∷ us) w r saved in
      elim (elim-cases m.callback _ _ h') [
        | inl (_, e) ↦ SameRegistry-Registered (handle_property_update-SameRegistry msg w₁ e) r₁
        | inr (f, _, e) ↦ SameRegistry-Registered (emit_ok-SameRegistry _ w₁ e) r₁
      ]

  pub pass_update-Registered :
      (msg : JsonMsg J) (w : World J) {w' : World J}
      → Registered w
      → pass_update msg w ≡ ok w'
      → Registered w'
  unfolding pass_update
  pass_update-Registered msg w r h = elim (if-cases w.different_thread _ _ h) [
    | inl (_, e) ↦ SameRegistry-Registered (post_ok-SameRegistry _ w e) r
    | inr (_, e) ↦
        let (id, found, h₁) = >>=-eq-ok (find_id J msg) _ e in
        elim (elim-cases (find id w.modules) _ _ h₁) [
          | inl (_, same) ↦ ok_subst Registered same r
          | inr (m, _, h₂) ↦
              let (p, listed, h₃) = >>=-eq-ok (get_properties_list J msg) _ h₂ in
              deliver-Registered id m p.0 p.1 w r h₃
        ]
  ]

  respond-Registered :
      (t : MsgType) (msg : JsonMsg J) (w : World J) {response : Text} {w' : World J}
      → Registered w
      → respond t msg w ≡ ok (response, w')
      → Registered w'
  unfolding respond
  respond-Registered req_load msg w r h =
      let (list, _, h₁) = >>=-eq-ok (create_module_list J w.modules) _ h in
      let (w₁, passed, done) = >>=-eq-ok (pass_update msg w) _ h₁ in
      ok_subst_snd Registered done (pass_update-Registered msg w r passed)
  respond-Registered req_apply msg w r h =
      let (w₁, passed, done) = >>=-eq-ok (pass_update msg w) _ h in
      ok_subst_snd Registered done (pass_update-Registered msg w r passed)
  respond-Registered _ msg w r h = ok_subst_snd Registered h r

  perform-Registered :
      (t : Task J) (w : World J) {w' : World J} → Registered w → perform t w ≡ ok w' → Registered w'
  unfolding perform
  perform-Registered (proxy_initialized host_mode) w r h =
      on_proxy_initialized-Registered host_mode w r h
  perform-Registered (handle_message msg) w r h =
      SameRegistry-Registered (handle_msg-SameRegistry msg w h) r
  perform-Registered (unregister_module id) w r h = unregister-Registered id w r h
  perform-Registered (save_properties_list id us) w r h = save_list-Registered id us w r h
  perform-Registered (pass_property_update msg) w r h = pass_update-Registered msg w r h
  perform-Registered (register_module m) w r h =
      let (p, given, done) = >>=-eq-ok (do_register_module m w) _ h in
      ok_subst Registered done (do_register_module-Registers m w r given).registered
  perform-Registered (process_js_request msg) w r h =
      let (p, given, done) = >>=-eq-ok (do_process_js_request msg w) _ h in
      ok_subst Registered done
        (respond-Registered msg.type msg w r (unfold do_process_js_request in given))

  pub run_task-Registered :
      (t : Task J) (w : World J) {w' : World J}
      → Registered w
      → run_task t w ≡ ok w'
      → Registered w'
  unfolding run_task
  run_task-Registered t w r h =
      let (w₁, done, e) = >>=-eq-ok (perform t (enter w)) _ h in
      ok_subst Registered e
        (Registered-at refl refl (perform-Registered t (enter w) (Registered-at refl refl r) done))

  -- Whatever tasks the loop runs, in whatever order: if none of them throws, a registry in order is
  -- in order afterwards, so that each module has its key as its id, and every id lies between 0 and
  -- the counter.
  pub run_tasks-Registered :
      (ts : List (Task J)) (w : World J) {w' : World J}
      → Registered w
      → run_tasks ts w ≡ ok w'
      → Registered w'
  unfolding run_tasks
  run_tasks-Registered [] w r h = ok_subst Registered h r
  run_tasks-Registered (t ∷ ts) w r h =
      let (w₁, done, h₁) = >>=-eq-ok (run_task t w) (run_tasks ts) h in
      run_tasks-Registered ts w₁ (run_task-Registered t w r done) h₁

  pub run_tasks_posted-Registered :
      (meanwhile : List (Task J)) (t : Task J) (w : World J) {w₁ : World J}
      → Registered w
      → run_tasks meanwhile (post t w) ≡ ok w₁
      → Registered (enter w₁)
  unfolding post
  run_tasks_posted-Registered meanwhile t w r ran =
      Registered-at refl refl
        (run_tasks-Registered meanwhile (post t w) (Registered-at refl refl r) ran)
