-- ===== src/Examples/Messages.antt =====
-- Messages between processes, the table of remote modules and the wrapper, at concrete inputs.
use sacs.Maps.{Map, find}
use sacs.Prelude.{Text, [], arith, codes, false, ok, pos, refl, some, text_eq, true, ◌∷◌, ◌≡◌}
use sacs.Maps.{Map, find}
use sacs.State.{Task, World, emit, post, register_module, unregister_module}
use sacs.Examples.Scene.{
  host_world, host_world-Registered, own_lamp, owner_world, remote_modules-IsOneToOne, start_world,
  update, value_or,
}
use sacs.Examples.SimpleJson.{
  Tree, cons_arr, cons_obj, nil_arr, nil_obj, num, simple_json, simple_laws, str,
}
use sacs.JsonMsg.{JsonMsg, detect_type, find_id, module_add, parse_msg, property_update, to_module}
use sacs.JsonMsg.Build.{
  create_module_added, create_module_list, create_module_removed, create_property_updated,
  dump_json,
}
use sacs.JsonMsg.Modules.{without_callback}
use sacs.JsonMsg.RoundTrip.{create_module_added-to_module, parse_msg-dump}
use sacs.ModuleManager.Loop.{enter, leave, run_tasks}
use sacs.ProxyServer.{Remote}
use sacs.ProxyServer.Closing.{on_client_closed_lem}
use sacs.ProxyServer.Session.{on_client_closed, on_client_read}
use sacs.State.{Task, World, emit, post, register_module, unregister_module}
use sacs.Module.{Module, set_id}
use sacs.ModuleManager.{handle_msg, push_msg_for_js}
use sacs.ModuleManager.Registry.{Registered-at, add_entry}
use sacs.Proxy.Roles.{connect_each, first_outcome_settles}
use sacs.ProxyServer.Arrival.{Arrives, on_client_read-module_added}
use sacs.ServerImpl.{push_to_pages}
use sacs.JsonMsg.Totality.{builders_fail_in_dump}

abbrev added_text : Text
added_text = value_or [] (create_module_added simple_json own_lamp)

abbrev removed_text : Text
removed_text = value_or [] (create_module_removed simple_json (pos 5))

abbrev pub updated_text : Text
updated_text = value_or [] (create_property_updated simple_json (pos 5) (update ∷ []))

create_module_added-to_module_example :
    (msg : JsonMsg simple_json) × (parse_msg simple_json added_text ≡ ok (msg, true))
    × (msg.type ≡ module_add)
    × (find_id simple_json msg ≡ ok (pos 5))
    × (to_module simple_json msg ≡ ok (some (without_callback simple_laws own_lamp)))
unfolding create_module_added
create_module_added-to_module_example =
    create_module_added-to_module simple_laws own_lamp added_text refl

-- The cells stand in the reverse order of the writes.
abbrev written_update : Tree
written_update =
    cons_obj (codes "value") (str (codes "1")) (cons_obj (codes "id") (num (pos 0)) nil_obj)

-- What the host parses from the update of the process.
abbrev pub updated_msg : JsonMsg simple_json
updated_msg = record {
  json = cons_obj (codes "properties") (cons_arr written_update nil_arr) (
      cons_obj (codes "id") (num (pos 5))
        (cons_obj (codes "type") (str (codes "property_update")) nil_obj));
  is_valid = true;
  type = property_update;
}

abbrev pub network_world : World simple_json
network_world = leave host_world

pub updated_text-updated_msg : parse_msg simple_json updated_text ≡ ok (updated_msg, true)
unfolding create_property_updated detect_type text_eq
updated_text-updated_msg =
    parse_msg-dump simple_laws updated_msg.json updated_text (codes "property_update") refl refl

-- The process of the module, off its loop
abbrev pub owner : World simple_json
owner = leave owner_world

on_client_closed_lem_example :
    on_client_closed 3 network_world
    ≡ ok (record network_world { remote_modules = []; posted = unregister_module (pos 0) ∷ [] })
on_client_closed_lem_example = on_client_closed_lem 3 network_world refl

abbrev table : Map Remote
table = host_world.remote_modules

abbrev unsettled_world : World simple_json
unsettled_world = leave start_world

first_outcome_settles_example :
    connect_each ((4, true) ∷ (5, false) ∷ []) unsettled_world
    ≡ ok (record unsettled_world {
      proxy_initialized = true;
      host = some 4;
      posted = Task.proxy_initialized false ∷ [];
    })
first_outcome_settles_example =
    first_outcome_settles 4 true ((5, false) ∷ []) unsettled_world refl refl refl

-- A second module comes to the host, which gives it the id 1.
abbrev arrived : Module
arrived = without_callback simple_laws (record own_lamp { id = pos 6 })

abbrev arrived_text : Text
arrived_text = value_or [] (create_module_added simple_json (record own_lamp { id = pos 6 }))

abbrev posted_world : World simple_json
posted_world = post (register_module arrived) network_world

abbrev told_text : Text
told_text = value_or [] (create_module_added simple_json (set_id arrived (pos 1)))

abbrev told_world : World simple_json
told_world = value_or host_world (handle_msg told_text (add_entry (enter posted_world) arrived))

on_client_read-module_added_example :
    (w' : World simple_json) × (on_client_read [] 3 arrived_text network_world ≡ ok w')
    × Arrives arrived (pos 7) network_world posted_world told_world w'
unfolding find create_module_added run_tasks post set_id handle_msg add_entry push_msg_for_js
    push_to_pages emit
on_client_read-module_added_example =
    on_client_read-module_added simple_laws [] 3 (record own_lamp { id = pos 6 }) arrived_text
      told_text network_world posted_world told_world refl
      (Registered-at refl refl host_world-Registered) refl refl refl refl refl tt
      remote_modules-IsOneToOne refl (λ k h. ground arith)

builders_fail_in_dump_example :
    ((j : Tree) × (create_module_added simple_json own_lamp ≡ dump_json simple_json j))
    × ((j : Tree) × (create_module_removed simple_json (pos 5) ≡ dump_json simple_json j))
    × ((j : Tree) × (create_property_updated simple_json (pos 5) (update ∷ [])
          ≡ dump_json simple_json j))
    × ((j : Tree) × (create_module_list simple_json host_world.modules ≡ dump_json simple_json j))
builders_fail_in_dump_example =
    builders_fail_in_dump simple_laws own_lamp (pos 5) (update ∷ []) host_world.modules
