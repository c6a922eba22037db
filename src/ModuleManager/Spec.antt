-- ===== src/ModuleManager/Spec.antt =====
-- What the registry of modules promises: a partial map from ids to modules, and the next id. It
-- forgets the order of the entries, the messages, the threads and the connections.
use mathlib.Core.Option
use sacs.Maps.{find}
use sacs.State.{
  Task, World, pass_property_update, process_js_request, register_module, save_properties_list,
  unregister_module,
}
use sacs.Prelude.{
  List, Option, Result, Text, [], if◌then◌else◌, none, ok, pos, some, suc, ℕ, ℤ, ◌==ℤ◌, ◌∷◌,
}
use sacs.Json.{JsonLib}
use sacs.JsonMsg.{JsonMsg, MsgType, find_id, get_properties_list, req_apply}
use sacs.Module.{Module}
use sacs.Module.Reference.{apply_updates}

pub record Registry : Type 0 where
  pub modules : ℤ → Option Module
  pub next : ℕ

abbrev pub spec_register : Module → Registry → Registry
spec_register m r = record {
  modules = λ k. if k ==ℤ pos r.next then some (record m { id = pos r.next }) else r.modules k;
  next = suc r.next;
}

abbrev pub spec_unregister : ℤ → Registry → Registry
spec_unregister id r = record r { modules = λ k. if k ==ℤ id then none else r.modules k }

abbrev pub spec_save : ℤ → List (ℤ × Text) → Registry → Registry
spec_save id us r = record r {
  modules = λ k. if k ==ℤ id then Option.map (apply_updates us) (r.modules k) else r.modules k;
}

module _ {J : JsonLib} where
  -- The module and the updates that a message names.
  abbrev pub spec_pass : Result ℤ → Result (JsonMsg J × List (ℤ × Text)) → Registry → Registry
  spec_pass (ok id) (ok (msg, us)) r = spec_save id us r
  spec_pass _ _ r = r

  -- A page changes the registry by a request to apply only.
  abbrev pub spec_request : MsgType → JsonMsg J → Registry → Registry
  spec_request req_apply msg r = spec_pass (find_id J msg) (get_properties_list J msg) r
  spec_request _ msg r = r

  abbrev pub spec_task : Task J → Registry → Registry
  spec_task (register_module m) r = spec_register m r
  spec_task (unregister_module id) r = spec_unregister id r
  spec_task (save_properties_list id us) r = spec_save id us r
  spec_task (pass_property_update msg) r = spec_pass (find_id J msg) (get_properties_list J msg) r
  spec_task (process_js_request msg) r = spec_request msg.type msg r
  spec_task _ r = r

  abbrev pub spec_tasks : List (Task J) → Registry → Registry
  spec_tasks [] r = r
  spec_tasks (t ∷ ts) r = spec_tasks ts (spec_task t r)

  -- What the manager holds, as such a map.
  abbrev pub registry : World J → Registry
  registry w = record { modules = λ k. find k w.modules; next = w.id_counter }
