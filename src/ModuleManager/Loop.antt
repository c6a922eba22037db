-- ===== src/ModuleManager/Loop.antt =====
-- The loop's thread, and the calls of ModuleManager that wait for it.
use sacs.Prelude.{
  List, Option, Result, Text, [], deadlock, false, if◌then◌else◌, ok, throw, true, ℕ, ℤ, ◌>>=◌, ◌∷◌,
}
use sacs.State.{
  Task, World, handle_message, pass_property_update, post, process_js_request, proxy_initialized,
  register_module, save_properties_list, unregister_module,
}
use sacs.Json.{JsonLib}
use sacs.JsonMsg.{parse_msg}
use sacs.JsonMsg.Build.{empty_json}
use sacs.Module.{Module, Property, new_module}
use sacs.ModuleManager.{
  do_process_js_request, do_register_module, handle_msg, on_proxy_initialized, pass_update,
  save_list, unregister,
}

module _ {J : JsonLib} where
  -- One posted call, on the thread of the loop.
  unfoldable pub perform : Task J → World J → Result (World J)
  unfolding on_proxy_initialized handle_msg unregister save_list pass_update do_register_module
      do_process_js_request
  perform (proxy_initialized host_mode) w = on_proxy_initialized host_mode w
  perform (handle_message msg) w = handle_msg msg w
  perform (unregister_module id) w = unregister id w
  perform (save_properties_list id us) w = save_list id us w
  perform (pass_property_update msg) w = pass_update msg w
  perform (register_module m) w = do (id, w') ← do_register_module m w; ok w'
  perform (process_js_request msg) w = do (response, w') ← do_process_js_request msg w; ok w'

  -- The thread of the loop goes to work, and the other thread goes on.
  abbrev pub enter : World J → World J
  enter w = record w { different_thread = false }

  abbrev pub leave : World J → World J
  leave w = record w { different_thread = true }

  unfoldable pub run_task : Task J → World J → Result (World J)
  run_task task w = do w' ← perform task (enter w); ok (leave w')

  unfoldable pub run_tasks : List (Task J) → World J → Result (World J)
  run_tasks [] w = ok w
  run_tasks (task ∷ rest) w = do w' ← run_task task w; run_tasks rest w'

  -- ModuleManager::RegisterModule(module) and RegisterModuleAsync. Off the loop's thread the caller
  -- waits while the loop runs what comes before. On the loop's own thread, where Post queues the call,
  -- the call that would end the wait is behind the one that waits, and no other thread runs it: the
  -- wait is a `deadlock`.
  unfoldable pub register : List (Task J) → Module → World J → Result (ℤ × World J)
  unfolding post run_tasks
  register meanwhile m w =
      if w.different_thread
      then (do
        w₁ ← run_tasks meanwhile (post (register_module m) w)
        (id, w₂) ← do_register_module m (enter w₁)
        ok (id, leave w₂))
      else if w.net.runs_at_once
      then do_register_module m w
      else throw deadlock

  -- ModuleManager::RegisterModule(name, properties, callback)
  unfoldable pub register_new :
      List (Task J) → Text → List Property → Option ℕ → World J → Result (ℤ × World J)
  unfolding new_module register
  register_new meanwhile name properties callback w =
      register meanwhile (new_module name properties callback) w

  -- ModuleManager::ProcessJSRequest and ProcessJSRequestAsync
  unfoldable pub process_request : List (Task J) → Text → World J → Result (Text × World J)
  unfolding post run_tasks
  process_request meanwhile str w = do
    (msg, parsed) ← parse_msg J str
    if parsed
        then (if w.different_thread
            then (do
              w₁ ← run_tasks meanwhile (post (process_js_request msg) w)
              (response, w₂) ← do_process_js_request msg (enter w₁)
              ok (response, leave w₂))
            else if w.net.runs_at_once
            then do_process_js_request msg w
            else throw deadlock)
        else ok (empty_json J, w)
