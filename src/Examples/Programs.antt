-- ===== src/Examples/Programs.antt =====
-- The example programs on the thread of the loop, and the first calls of a wrapper.
use sacs.Clients.{answer}
use sacs.Module.{Module, Property, new_module, set_id, set_value}
use sacs.Maps.{assign, erase, find, insert}
use sacs.Examples.Scene.{
  host_world, host_world-Registered, message, message-Carries, net, update, value_or,
}
use sacs.Maps.{assign, erase, find, insert}
use sacs.Examples.Scene.{
  host_world, host_world-Registered, message, message-Carries, net, update, value_or,
}
use sacs.Prelude.{
  Text, [], arith, codes, false, ok, pos, refl, some, text_eq, true, ℕ, ℤ, ◌>>=◌, ◌∷◌, ◌≡◌,
}
use sacs.Clients.ButtonAndLog.{button_callback, button_callback-button_round}
use sacs.Clients.CreateClose.{Returns, create_then_close, temporary}
use sacs.Clients.TextFields.{text_callback}
use sacs.Examples.SimpleJson.{simple_json, simple_laws}
use sacs.JsonMsg.Build.{create_module_added, create_module_removed, create_property_updated}
use sacs.Module.{Module, Property, new_module, set_id, set_value}
use sacs.ModuleManager.{
  call_back, do_register_module, handle_msg, pass_update, push_msg_for_js, unregister,
}
use sacs.ModuleManager.Registry.{Registered-at}
use sacs.ServerImpl.{push_to_pages}
use sacs.State.{World}
use sacs.Wrapper.{no_lib_update_properties, to_property}
use sacs.Wrapper.Marshalling.{until_nul}
use sacs.Clients.TextFields.FromPage.{text_field_follows}
use sacs.JsonMsg.{detect_type}
use sacs.Module.Reference.{with_updates}
use sacs.ModuleManager.Delivery.{Applies}

abbrev at_once : World simple_json
at_once = record host_world { net = record net { runs_at_once = true } }

button_callback-button_round_example :
    answer
      (button_callback true)
      (call_back 9 (pos 0) ((pos 1, codes "1") ∷ []))
      (record { counter = 2; enabled = pos 0; g_mgr = some at_once })
    ≡ (do
      w' ← no_lib_update_properties (pos 0) ((pos 0, codes "Disabled : 3") ∷ []) at_once
      ok (record { counter = 3; enabled = pos 0; g_mgr = some w' }))
unfolding sacs.Clients.Decimal.digits
button_callback-button_round_example =
    button_callback-button_round 9 (pos 0) ((pos 1, codes "1") ∷ []) 2 (pos 0) at_once (omega arith)

abbrev created : ℤ × World simple_json
created = value_or (pos 0, at_once) (do_register_module temporary at_once)

abbrev closed : World simple_json
closed = value_or at_once (unregister (pos 1) created.1)

create_then_close_example : Returns [] 9 (pos 0) (codes "1") at_once (pos 1) created.1 closed
unfolding do_register_module create_module_added set_id insert handle_msg push_msg_for_js
    push_to_pages unregister create_module_removed erase new_module to_property
create_then_close_example =
    create_then_close [] 9 (pos 0) (codes "1") at_once refl refl
      (Registered-at refl refl host_world-Registered) refl refl

abbrev field : ℕ → Text → Text → Property
field type name value = record { type = pos type; name = name; value = value; read_only = false }

-- The module of TextFields, with the new value from a page or without
abbrev text_input : Text → Text → Module
text_input new_value current = record {
  id = pos 0;
  name = codes "Text Input";
  properties =
      field 3 (codes "New Value") new_value
      ∷ field 5 (codes "Current Value") current
      ∷ field 4 (codes "Independent Value") (codes "Value")
      ∷ [];
  callback = some 9;
}

abbrev text_world : World simple_json
text_world = record host_world { modules = (pos 0, text_input [] (codes "Default Value")) ∷ [] }

text_input-Applies :
    Applies simple_laws
      (codes "apply")
      (pos 0)
      (text_input [] (codes "Default Value"))
      (update ∷ [])
      (message (codes "apply") (pos 0) (pos 0))
      text_world
unfolding detect_type text_eq find
text_input-Applies = record {
  carries = message-Carries (codes "apply") (pos 0) (pos 0);
  kind = refl;
  on_loop = refl;
  filed = refl;
}

abbrev copied_text : Text
copied_text = value_or [] (create_property_updated simple_json (pos 0) ((pos 1, codes "1") ∷ []))

text_field_follows_example :
    (w₁ : World simple_json) × (pass_update (message (codes "apply") (pos 0) (pos 0)) text_world
      ≡ ok w₁)
    × (w₁.modules ≡ (pos 0, text_input (codes "1") (codes "Default Value")) ∷ [])
    × (w₁.events ≡ call_back 9 (pos 0) (update ∷ []) ∷ [])
    × (answer (text_callback true) (call_back 9 (pos 0) (update ∷ [])) (some w₁)
        ≡ ok (
            some (
              push_to_pages copied_text ((pos 1, 1) ∷ (pos 2, 2) ∷ []) (record w₁ {
                modules = assign (pos 0) (text_input (codes "1") (codes "1")) w₁.modules;
              }))))
unfolding with_updates set_value assign until_nul create_property_updated
text_field_follows_example =
    text_field_follows simple_laws text_input-Applies 9 copied_text ((pos 1, 1) ∷ (pos 2, 2) ∷ [])
      refl refl refl refl refl
