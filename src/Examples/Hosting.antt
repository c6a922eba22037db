-- ===== src/Examples/Hosting.antt =====
-- The registry, the queue of messages and the answers to web pages, at concrete inputs.
use sacs.Prelude.{List, Text, [], codes, false, ok, pos, refl, some, text_eq, true, ◌>>=◌, ◌∷◌, ◌≡◌}
use sacs.Maps.{assign, find, insert}
use sacs.Examples.Scene.{
  host_world, host_world-Registered, lamp, own_lamp, start_world, start_world-Registered, turned_on,
  turned_on-lamp, update, value_or,
}
use sacs.Examples.SimpleJson.{Tree, cons_obj, nil_obj, print, simple_json, simple_laws, str}
use sacs.JsonMsg.{JsonMsg, detect_type}
use sacs.JsonMsg.Build.{
  create_module_added, create_module_list, create_module_removed, create_property_updated,
}
use sacs.Module.{set_id, set_property_value, set_property_values}
use sacs.ModuleManager.{
  do_register_module, handle_msg, on_proxy_initialized, push_msg_for_js, save_list, unregister,
  update_properties,
}
use sacs.ModuleManager.Invariant.{run_tasks-Registered}
use sacs.ModuleManager.Loop.{leave, perform, run_task, run_tasks}
use sacs.ModuleManager.Queue.{handle_each, messages_in_order}
use sacs.ModuleManager.Registry.{
  Registered, Registered-at, Registers, add_entry, do_register_module-succeeds,
}
use sacs.ServerImpl.{push_to_pages}
use sacs.ServerImpl.Listeners.{push_to_pages_lem}
use sacs.ServerImpl.Requests.{Resources, on_ws_client_message}
use sacs.State.{
  Task, World, handle_message, host_sent, post, process_js_request, register_module,
  save_properties_list, unregister_module, ws_sent,
}
use sacs.JsonMsg.RoundTrip.{parse_msg-dump}
use sacs.ServerImpl.Publishing.{load_is_answered, update_reaches_pages}
use sacs.ModuleManager.Refinement.{run_tasks_refine}
use sacs.ModuleManager.Spec.{registry, spec_tasks}

abbrev tasks : List (Task simple_json)
tasks =
    register_module lamp
    ∷ register_module own_lamp
    ∷ save_properties_list (pos 1) (update ∷ [])
    ∷ unregister_module (pos 0)
    ∷ []

run_tasks-Registered_example : Registered (value_or start_world (run_tasks tasks start_world))
unfolding find insert run_tasks run_task perform do_register_module save_list unregister handle_msg
    set_id create_module_added create_module_removed set_property_values set_property_value
run_tasks-Registered_example = run_tasks-Registered tasks start_world start_world-Registered refl

abbrev announcement : Text
announcement = value_or [] (create_module_added simple_json (set_id own_lamp (pos 1)))

do_register_module-succeeds_example :
    (do_register_module own_lamp host_world
      ≡ ok (pos 1, value_or host_world (handle_msg announcement (add_entry host_world own_lamp))))
    × Registers host_world own_lamp
        (pos 1)
        (value_or host_world (handle_msg announcement (add_entry host_world own_lamp)))
unfolding create_module_added set_id handle_msg add_entry push_msg_for_js
do_register_module-succeeds_example =
    do_register_module-succeeds own_lamp host_world announcement
      (value_or host_world (handle_msg announcement (add_entry host_world own_lamp)))
      host_world-Registered refl refl refl

messages_in_order_example :
    (do
      w₁ ← handle_each (codes "a" ∷ codes "b" ∷ []) start_world
      w₂ ← on_proxy_initialized false (record w₁ { host = some 4 })
      handle_each (codes "c" ∷ []) w₂)
    ≡ ok (record start_world {
      initialized = true;
      host = some 4;
      msg_queue = [];
      events = host_sent 4 (codes "a") ∷ host_sent 4 (codes "b") ∷ host_sent 4 (codes "c") ∷ [];
    })
messages_in_order_example =
    messages_in_order 4 (codes "a" ∷ codes "b" ∷ []) (codes "c" ∷ []) start_world refl refl refl

abbrev module_list : Text
module_list = value_or [] (create_module_list simple_json host_world.modules)

push_to_pages_lem_example :
    push_to_pages (codes "a") ((pos 1, 1) ∷ (pos 2, 2) ∷ []) host_world ≡ record host_world {
      server_impl = some ((pos 1, 1) ∷ []);
      events = ws_sent 1 (codes "a") ∷ [];
    }
push_to_pages_lem_example = push_to_pages_lem (codes "a") ((pos 1, 1) ∷ (pos 2, 2) ∷ []) host_world

abbrev resources : Resources
resources = (codes "index.html", codes "<html>") ∷ []

abbrev find_mime : Text → Text
find_mime name = codes "text/html"

-- A host whose loop is somewhere else.
abbrev idle_host : World simple_json
idle_host = leave host_world

abbrev update_text : Text
update_text = value_or [] (create_property_updated simple_json (pos 0) (update ∷ []))

update_reaches_pages_example :
    (do
      w₁ ← update_properties (pos 0) (update ∷ []) idle_host
      run_tasks (save_properties_list (pos 0) (update ∷ []) ∷ handle_message update_text ∷ []) w₁)
    ≡ ok (record idle_host {
      modules = assign (pos 0) (turned_on lamp) idle_host.modules;
      server_impl = some ((pos 1, 1) ∷ []);
      posted = save_properties_list (pos 0) (update ∷ []) ∷ handle_message update_text ∷ [];
      events = ws_sent 1 update_text ∷ [];
    })
unfolding find create_property_updated
update_reaches_pages_example =
    update_reaches_pages (pos 0) (update ∷ []) lamp (turned_on lamp) update_text
      ((pos 1, 1) ∷ (pos 2, 2) ∷ []) idle_host refl refl refl refl turned_on-lamp refl

abbrev load_tree : Tree
load_tree = cons_obj (codes "type") (str (codes "load")) nil_obj

abbrev load_request : JsonMsg simple_json
load_request = record { json = load_tree; is_valid = true; type = detect_type (codes "load") }

load_is_answered_example :
    on_ws_client_message [] 1 false (print load_tree []) idle_host
    ≡ ok (record idle_host {
      posted = process_js_request load_request ∷ [];
      events = ws_sent 1 module_list ∷ [];
    })
unfolding run_tasks post create_module_list detect_type text_eq
load_is_answered_example =
    load_is_answered [] 1 (print load_tree []) module_list load_request idle_host
      (post (process_js_request load_request) idle_host) refl
      (Registered-at refl refl host_world-Registered)
      (parse_msg-dump simple_laws load_tree (print load_tree []) (codes "load") refl refl) refl refl
      refl

run_tasks_refine_example :
    registry (value_or start_world (run_tasks tasks start_world))
    ≡ spec_tasks tasks (registry start_world)
unfolding find insert run_tasks run_task perform do_register_module save_list unregister handle_msg
    set_id create_module_added create_module_removed set_property_values set_property_value
run_tasks_refine_example = run_tasks_refine tasks start_world start_world-Registered refl
