-- ===== src/Examples/Reached.antt =====
-- A host from its start: it finds no other host, runs its loop, and registers the module of a process.
use sacs.Maps.{IsSorted, assign, erase, find, insert}
use sacs.State.{
  World, post, proxy_initialized, proxy_server_started, unregister_module, web_server_started,
}
use sacs.Examples.Scene.{
  lamp, message, message-Carries, net, own_lamp, turned_on, turned_on-lamp, update, value_or,
}
use sacs.Examples.SimpleJson.{cons_obj, nil_obj, num, simple_json, simple_laws, str}
use sacs.JsonMsg.RoundTrip.{create_module_added-to_module, parse_msg-dump}
use sacs.ModuleManager.Delivery.{Applies}
use sacs.ModuleManager.Loop.{enter, perform, run_task, run_tasks}
use sacs.Prelude.{
  Text, [], codes, false, if◌then◌else◌, negsuc, ok, pos, refl, some, text_eq, true, ℤ, ◌==ℤ◌, ◌∷◌,
  ◌≡◌,
}
use sacs.JsonMsg.{JsonMsg, detect_type, module_del, parse_msg}
use sacs.JsonMsg.Build.{create_module_added, create_module_removed}
use sacs.JsonMsg.Modules.{without_callback}
use sacs.Module.{set_id}
use sacs.ModuleManager.{
  do_register_module, handle_msg, init, on_proxy_initialized, pass_update, push_all,
  push_msg_for_js,
}
use sacs.ModuleManager.Registry.{Registered}
use sacs.Proxy.Connection.{on_connecting, start_proxy_server}
use sacs.ProxyServer.{add_module, local_id_from_remote, remote_id_from_local, remove_module}
use sacs.ProxyServer.Relay.{on_client_read-module_removed}
use sacs.ProxyServer.Session.{on_client_read}
use sacs.ProxyServer.Table.{has_remote}
use sacs.ServerImpl.{push_to_pages}
use sacs.System.{
  Reach, announces, connects, files, given, idle, later, registers, runs, start, waiting,
}
use sacs.System.Consistent.{Consistent}
use sacs.System.Draining.{loop_drains}
use sacs.System.Filing.{reached_filing, reached_update_lost}
use sacs.System.Isolation.{PostsOwn, reached_clients_isolated}
use sacs.System.Tables.{Reach-Consistent}

abbrev hosting : World simple_json
hosting = record (init {J = simple_json} (pos 8080) net) {
  proxy_initialized = true;
  has_server = true;
  posted = proxy_initialized true ∷ [];
  events = proxy_server_started (pos 8079) ∷ [];
}

abbrev serving : World simple_json
serving = record hosting {
  posted = [];
  initialized = true;
  server_impl = some [];
  events = proxy_server_started (pos 8079) ∷ web_server_started (pos 8080) ∷ [];
}

hosting-Reach : Reach (pos 8080) net hosting idle
unfolding on_connecting start_proxy_server on_proxy_initialized post
hosting-Reach = later start (connects idle 0 false false refl)

serving-Reach : Reach (pos 8080) net serving idle
unfolding run_task perform on_proxy_initialized push_all
serving-Reach = later hosting-Reach (runs idle [] [] (proxy_initialized true) refl refl)

abbrev added_text : Text
added_text = value_or [] (create_module_added simple_json own_lamp)

-- The host has registered the module, and not filed it yet.
abbrev registered : World simple_json
registered = record serving { id_counter = 1; modules = (pos 0, lamp) ∷ [] }

announced-Reach :
    Reach (pos 8080) net serving (waiting (without_callback simple_laws own_lamp) (pos 5) (pos 7))
unfolding create_module_added find
announced-Reach =
    let (msg, parsed, kind, _, made) =
      create_module_added-to_module simple_laws own_lamp added_text refl in
    later serving-Reach
      (announces 3 added_text msg (without_callback simple_laws own_lamp) parsed kind made)

registered-Reach : Reach (pos 8080) net registered (given (pos 0) (pos 5) (pos 7))
unfolding do_register_module create_module_added set_id insert handle_msg push_msg_for_js
    push_to_pages
registered-Reach =
    later announced-Reach
      (registers (without_callback simple_laws own_lamp) (pos 5) (pos 7) (pos 0) refl)

Reach-Consistent_example : Consistent registered (given (pos 0) (pos 5) (pos 7))
Reach-Consistent_example =
    Reach-Consistent (pos 8080) net registered (given (pos 0) (pos 5) (pos 7)) registered-Reach

loop_drains_example :
    (serving.posted ≡ []) × (serving.remote_modules ≡ hosting.remote_modules) × Registered serving
unfolding run_tasks run_task perform on_proxy_initialized push_all
loop_drains_example = loop_drains (pos 8080) net idle hosting serving hosting-Reach refl

reached_filing_example :
    (let t = add_module (pos 0) (pos 5) (pos 7) [] in
      (t ≡ (pos 0, (pos 5, pos 7)) ∷ [])
      × IsSorted t
      × ((k : ℤ)
          → remote_id_from_local k t
            ≡ (if k ==ℤ pos 0 then (pos 5, pos 7) else remote_id_from_local k []))
      × ((r c : ℤ)
          → local_id_from_remote r c t
            ≡ (if has_remote r c ((pos 0, (pos 5, pos 7)) ∷ []) then pos 0 else negsuc 0)))
reached_filing_example =
    reached_filing (pos 8080) net registered (pos 0) (pos 5) (pos 7) registered-Reach

registered-Applies :
    Applies simple_laws
      (codes "apply")
      (pos 0)
      lamp
      (update ∷ [])
      (message (codes "apply") (pos 0) (pos 0))
      (enter registered)
unfolding detect_type text_eq find
registered-Applies = record {
  carries = message-Carries (codes "apply") (pos 0) (pos 0);
  kind = refl;
  on_loop = refl;
  filed = refl;
}

reached_update_lost_example :
    pass_update (message (codes "apply") (pos 0) (pos 0)) (enter registered)
    ≡ ok
        (record (enter registered) { modules = assign (pos 0) (turned_on lamp) registered.modules })
reached_update_lost_example =
    reached_update_lost (pos 8080) net registered (pos 0) (pos 5) (pos 7) registered-Reach
      simple_laws registered-Applies (turned_on lamp) refl refl refl turned_on-lamp

abbrev filed : World simple_json
filed = record registered { remote_modules = (pos 0, (pos 5, pos 7)) ∷ [] }

filed-Reach : Reach (pos 8080) net filed idle
unfolding add_module insert
filed-Reach = later registered-Reach (files (pos 0) (pos 5) (pos 7))

abbrev removed_text : Text
removed_text = value_or [] (create_module_removed simple_json (pos 5))

abbrev removed_msg : JsonMsg simple_json
removed_msg = record {
  json =
      cons_obj (codes "id") (num (pos 5))
        (cons_obj (codes "type") (str (codes "module_removed")) nil_obj);
  is_valid = true;
  type = module_del;
}

removed_text-removed_msg : parse_msg simple_json removed_text ≡ ok (removed_msg, true)
unfolding create_module_removed detect_type text_eq
removed_text-removed_msg =
    parse_msg-dump simple_laws removed_msg.json removed_text (codes "module_removed") refl refl

removed_text-read :
    on_client_read [] 3 removed_text filed
    ≡ ok (record filed { posted = unregister_module (pos 0) ∷ []; remote_modules = [] })
unfolding create_module_removed local_id_from_remote remove_module erase
removed_text-read =
    on_client_read-module_removed simple_laws 3 [] filed refl (pos 5) removed_text refl

reached_clients_isolated_example :
    PostsOwn
      (pos 7)
      filed
      (record filed { posted = unregister_module (pos 0) ∷ []; remote_modules = [] })
reached_clients_isolated_example =
    reached_clients_isolated (pos 8080) net filed
      (record filed { posted = unregister_module (pos 0) ∷ []; remote_modules = [] }) 3 removed_text
      removed_msg filed-Reach removed_text-removed_msg (λ h. cc) removed_text-read
