-- ===== src/ModuleManager/OnLoop.antt =====
-- What the tasks of the loop leave alone: the posted calls, the thread, and the table of remote
-- modules.
use sacs.State.{
  Task, World, emit, handle_message, pass_property_update, process_js_request, proxy_initialized,
  register_module, save_properties_list, unregister_module,
}
use sacs.Maps.{find}
use sacs.Prelude.{
  >>=-eq-ok, Bool, List, Text, [], arith, elim-cases, false, if-cases, inl, inr, ok, ok_subst,
  ok_subst_snd, refl, true, ℤ, ◌∙◌, ◌∷◌, ◌≡◌, ◌≤◌,
}
use sacs.Json.{JsonLib}
use sacs.JsonMsg.{JsonMsg, MsgType, find_id, get_properties_list, req_apply, req_load}
use sacs.JsonMsg.Build.{create_module_list, create_module_removed}
use sacs.Module.{Module}
use sacs.ModuleManager.{
  deliver, do_process_js_request, do_register_module, handle_msg, on_proxy_initialized, pass_update,
  push_all, push_msg_for_js, respond, save_list, unregister,
}
use sacs.ModuleManager.Loop.{enter, perform, run_task}
use sacs.ModuleManager.Registry.{add_entry, do_register_module-ok}
use sacs.Proxy.{handle_property_update}

module _ {J : JsonLib} where
  pub record TaskFrame (w w' : World J) : Type 0 where
    pub posted : w'.posted ≡ w.posted
    pub remote_modules : w'.remote_modules ≡ w.remote_modules
    pub different_thread : w'.different_thread ≡ w.different_thread
    pub net : w'.net ≡ w.net
    pub counts : w.id_counter ≤ w'.id_counter

  pub TaskFrame-refl : (w : World J) → TaskFrame w w
  TaskFrame-refl w = ground arith

  module _ {w w' : World J} where
    pub TaskFrame-trans : {w'' : World J} → TaskFrame w w' → TaskFrame w' w'' → TaskFrame w w''
    TaskFrame-trans s t = ground arith

  push_msg_for_js-TaskFrame :
      (msg : Text) (w : World J) {w' : World J} → push_msg_for_js msg w ≡ ok w' → TaskFrame w w'
  unfolding push_msg_for_js
  push_msg_for_js-TaskFrame msg w h = ground arith

  handle_msg-TaskFrame :
      (msg : Text) (w : World J) {w' : World J}
      → w.different_thread ≡ false
      → handle_msg msg w ≡ ok w'
      → TaskFrame w w'
  unfolding handle_msg
  handle_msg-TaskFrame msg w {w'} d h = ground (arith, push_msg_for_js-TaskFrame msg w {w' = w'})

  push_all-TaskFrame :
      (msgs : List Text) (w : World J) {w' : World J} → push_all msgs w ≡ ok w' → TaskFrame w w'
  unfolding push_all
  push_all-TaskFrame [] w h = ground arith
  push_all-TaskFrame (msg ∷ rest) w h =
      let (w₁, sent, h') = >>=-eq-ok (push_msg_for_js msg w) (push_all rest) h in
      TaskFrame-trans (push_msg_for_js-TaskFrame msg w sent) (push_all-TaskFrame rest w₁ h')

  on_proxy_initialized-TaskFrame :
      (host_mode : Bool) (w : World J) {w' : World J}
      → w.different_thread ≡ false
      → on_proxy_initialized host_mode w ≡ ok w'
      → TaskFrame w w'
  unfolding on_proxy_initialized
  on_proxy_initialized-TaskFrame true w {w'} d h =
      let (w₁, pushed, done) = >>=-eq-ok (push_all w.msg_queue _) _ (rw d at h) in
      let k = push_all-TaskFrame w.msg_queue _ pushed in ok_subst (TaskFrame w) done (ground arith)
  on_proxy_initialized-TaskFrame false w {w'} d h =
      let (w₁, pushed, done) = >>=-eq-ok (push_all w.msg_queue _) _ (rw d at h) in
      let k = push_all-TaskFrame w.msg_queue _ pushed in ok_subst (TaskFrame w) done (ground arith)

  add_entry-TaskFrame : (w : World J) (m : Module) → TaskFrame w (add_entry w m)
  unfolding add_entry
  add_entry-TaskFrame w m = record {
    posted = refl;
    remote_modules = refl;
    different_thread = refl;
    net = refl;
    counts = omega arith;
  }

  pub do_register_module-TaskFrame :
      (m : Module) (w : World J) {id : ℤ} {w' : World J}
      → w.different_thread ≡ false
      → do_register_module m w ≡ ok (id, w')
      → TaskFrame w w'
  do_register_module-TaskFrame m w d h =
      let (text, _, sent, _) = do_register_module-ok m w h in
      TaskFrame-trans (add_entry-TaskFrame w m) (
        handle_msg-TaskFrame text (add_entry w m) ((add_entry-TaskFrame w m).different_thread ∙ d)
          sent)

  unregister-TaskFrame :
      (id : ℤ) (w : World J) {w' : World J}
      → w.different_thread ≡ false
      → unregister id w ≡ ok w'
      → TaskFrame w w'
  unfolding unregister
  unregister-TaskFrame id w {w'} d h = elim (if-cases w.different_thread _ _ h) [
    | inl (e, _) ↦ cc
    | inr (_, e) ↦
        let (text, made, sent) = >>=-eq-ok (create_module_removed J id) _ e in
        let k = handle_msg-TaskFrame text _ d sent in ground arith
  ]

  save_list-TaskFrame :
      (id : ℤ) (us : List (ℤ × Text)) (w : World J) {w' : World J}
      → w.different_thread ≡ false
      → save_list id us w ≡ ok w'
      → TaskFrame w w'
  unfolding save_list
  save_list-TaskFrame id us w d h = ground arith

  handle_property_update-TaskFrame :
      (msg : JsonMsg J) (w : World J) {w' : World J}
      → handle_property_update msg w ≡ ok w'
      → TaskFrame w w'
  unfolding handle_property_update
  handle_property_update-TaskFrame msg w h = ground arith

  deliver-TaskFrame :
      (id : ℤ) (m : Module) (msg : JsonMsg J) (us : List (ℤ × Text)) (w : World J) {w' : World J}
      → w.different_thread ≡ false
      → deliver id m msg us w ≡ ok w'
      → TaskFrame w w'
  unfolding deliver emit
  deliver-TaskFrame id m msg [] w d h = ground arith
  deliver-TaskFrame id m msg (u ∷ us) w d h =
      let (w₁, saved, h') = >>=-eq-ok (save_list id (u ∷ us) w) _ h in
      TaskFrame-trans (save_list-TaskFrame id (u ∷ us) w d saved)
        (ground (arith, handle_property_update-TaskFrame msg w₁))

  pass_update-TaskFrame :
      (msg : JsonMsg J) (w : World J) {w' : World J}
      → w.different_thread ≡ false
      → pass_update msg w ≡ ok w'
      → TaskFrame w w'
  unfolding pass_update
  pass_update-TaskFrame msg w d h = elim (if-cases w.different_thread _ _ h) [
    | inl (e, _) ↦ cc
    | inr (_, e) ↦
        let (id, found, h₁) = >>=-eq-ok (find_id J msg) _ e in
        elim (elim-cases (find id w.modules) _ _ h₁) [
          | inl (_, same) ↦ ground arith
          | inr (m, _, h₂) ↦
              let (p, listed, h₃) = >>=-eq-ok (get_properties_list J msg) _ h₂ in
              deliver-TaskFrame id m p.0 p.1 w d h₃
        ]
  ]

  respond-TaskFrame :
      (t : MsgType) (msg : JsonMsg J) (w : World J) {response : Text} {w' : World J}
      → w.different_thread ≡ false
      → respond t msg w ≡ ok (response, w')
      → TaskFrame w w'
  unfolding respond
  respond-TaskFrame req_load msg w d h =
      let (list, _, h₁) = >>=-eq-ok (create_module_list J w.modules) _ h in
      let (w₁, passed, done) = >>=-eq-ok (pass_update msg w) _ h₁ in
      ok_subst_snd (TaskFrame w) done (pass_update-TaskFrame msg w d passed)
  respond-TaskFrame req_apply msg w d h =
      let (w₁, passed, done) = >>=-eq-ok (pass_update msg w) _ h in
      ok_subst_snd (TaskFrame w) done (pass_update-TaskFrame msg w d passed)
  respond-TaskFrame _ msg w d h = ground arith

  perform-TaskFrame :
      (t : Task J) (w : World J) {w' : World J}
      → w.different_thread ≡ false
      → perform t w ≡ ok w'
      → TaskFrame w w'
  unfolding perform
  perform-TaskFrame (proxy_initialized host_mode) w d h =
      on_proxy_initialized-TaskFrame host_mode w d h
  perform-TaskFrame (handle_message msg) w d h = handle_msg-TaskFrame msg w d h
  perform-TaskFrame (unregister_module id) w d h = unregister-TaskFrame id w d h
  perform-TaskFrame (save_properties_list id us) w d h = save_list-TaskFrame id us w d h
  perform-TaskFrame (pass_property_update msg) w d h = pass_update-TaskFrame msg w d h
  perform-TaskFrame (register_module m) w d h =
      let (p, given, done) = >>=-eq-ok (do_register_module m w) _ h in
      ok_subst (TaskFrame w) done (do_register_module-TaskFrame m w d given)
  perform-TaskFrame (process_js_request msg) w d h =
      let (p, given, done) = >>=-eq-ok (do_process_js_request msg w) _ h in
      ok_subst (TaskFrame w) done
        (respond-TaskFrame msg.type msg w d (unfold do_process_js_request in given))

  -- The run of a task by a loop whose process is, between tasks, on another thread.
  pub run_task-TaskFrame :
      (t : Task J) (w : World J) {w' : World J}
      → w.different_thread ≡ true
      → run_task t w ≡ ok w'
      → TaskFrame w w'
  unfolding run_task
  run_task-TaskFrame t w d h =
      let (w₁, done, e) = >>=-eq-ok (perform t (enter w)) _ h in
      let k = perform-TaskFrame t (enter w) refl done in ok_subst (TaskFrame w) e (ground arith)
