-- ===== src/Examples/Updates.antt =====
-- The updates of a web page, at concrete inputs.
use sacs.Maps.{assign, find}
use sacs.Prelude.{
  List, Text, [], codes, negsuc, ok, out_of_range, pos, refl, text_eq, throw, true, ℤ, ◌++◌, ◌>>=◌,
  ◌∷◌, ◌≡◌,
}
use sacs.EndToEnd.{apply_reaches_owner}
use sacs.Examples.Scene.{
  apply_msg, host_world, host_world-Applies, lamp, message, message-Carries, own_lamp, owner_world,
  sent_on, switch, text_of, turned_on, turned_on-lamp, turned_on-own_lamp, update,
}
use sacs.Examples.Scene.{
  apply_msg, host_world, host_world-Applies, lamp, message, message-Carries, own_lamp, owner_world,
  sent_on, switch, text_of, turned_on, turned_on-lamp, turned_on-own_lamp, update,
}
use sacs.Examples.SimpleJson.{simple_json, simple_laws}
use sacs.JsonMsg.{JsonMsg, detect_type, parse_msg, set_msg_id}
use sacs.ModuleManager.{call_back, pass_update}
use sacs.ModuleManager.Loop.{enter, run_task}
use sacs.Proxy.Connection.{on_read}
use sacs.State.{pass_property_update, peer_sent}
use sacs.JsonMsg.RoundTrip.{Carries}
use sacs.Module.{Module, set_property_values}
use sacs.Module.Update.{Saved}
use sacs.ModuleManager.Delivery.{
  Applies, pass_update-calls, pass_update-forwards, pass_update-throws,
}
use sacs.Module.Reference.{set_property_values-reference, with_updates}

apply_reaches_owner_example :
    (pass_update apply_msg host_world
      ≡ ok (record host_world {
        modules = assign (pos 0) (turned_on lamp) host_world.modules;
        events = host_world.events ++ peer_sent 3 (text_of (sent_on apply_msg (pos 5))) ∷ [];
      }))
    × ((do
      v₁ ← on_read (text_of (sent_on apply_msg (pos 5))) owner_world
      run_task (pass_property_update (sent_on apply_msg (pos 5))) v₁)
        ≡ ok (record owner_world {
          modules = assign (pos 5) (turned_on own_lamp) owner_world.modules;
          posted = owner_world.posted ++ pass_property_update (sent_on apply_msg (pos 5)) ∷ [];
          events = owner_world.events ++ call_back 9 (pos 5) (update ∷ []) ∷ [];
        }))
unfolding find set_msg_id
apply_reaches_owner_example =
    apply_reaches_owner simple_laws (host_world-Applies (pos 0)) (pos 5) (pos 7) 3 9
      (turned_on lamp) own_lamp (turned_on own_lamp) (sent_on apply_msg (pos 5))
      (text_of (sent_on apply_msg (pos 5))) owner_world refl refl refl refl turned_on-lamp refl refl
      refl refl refl turned_on-own_lamp

pass_update-forwards_example :
    (pass_update apply_msg host_world
      ≡ ok (record host_world {
        modules = assign (pos 0) (turned_on lamp) host_world.modules;
        events = host_world.events ++ peer_sent 3 (text_of (sent_on apply_msg (pos 5))) ∷ [];
      }))
    × (parse_msg simple_json (text_of (sent_on apply_msg (pos 5)))
        ≡ ok (sent_on apply_msg (pos 5), true))
    × Carries simple_laws (codes "apply") (pos 5) (update ∷ []) (sent_on apply_msg (pos 5))
unfolding find set_msg_id
pass_update-forwards_example =
    pass_update-forwards simple_laws (host_world-Applies (pos 0)) (pos 5) (pos 7) 3 (turned_on lamp)
      (sent_on apply_msg (pos 5)) (text_of (sent_on apply_msg (pos 5))) refl refl refl refl
      turned_on-lamp refl refl

abbrev own_msg : JsonMsg simple_json
own_msg = message (codes "apply") (pos 5) (pos 0)

own_msg-Applies :
    Applies simple_laws (codes "apply") (pos 5) own_lamp (update ∷ []) own_msg (enter owner_world)
unfolding detect_type text_eq find
own_msg-Applies = record {
  carries = message-Carries (codes "apply") (pos 5) (pos 0);
  kind = refl;
  on_loop = refl;
  filed = refl;
}

pass_update-calls_example :
    (m' : Module) × Saved own_lamp (update ∷ []) m'
    × (pass_update own_msg (enter owner_world)
        ≡ ok (record (enter owner_world) {
          modules = assign (pos 5) m' owner_world.modules;
          events = owner_world.events ++ call_back 9 (pos 5) (update ∷ []) ∷ [];
        }))
pass_update-calls_example = pass_update-calls simple_laws own_msg-Applies 9 refl refl

pass_update-throws_example :
    pass_update (message (codes "apply") (pos 0) (negsuc 0)) host_world ≡ throw out_of_range
pass_update-throws_example = pass_update-throws simple_laws (host_world-Applies (negsuc 0)) refl

-- The page sets a property twice, and one that is not there.
abbrev three_updates : List (ℤ × Text)
three_updates =
    (pos 0, codes "0") ∷ (pos 4, codes "x") ∷ (pos 1, codes "1") ∷ (pos 0, codes "1") ∷ []

-- A lamp with a second switch, which is read-only.
abbrev two_switches : Module
two_switches = record lamp { properties = switch ∷ record switch { read_only = true } ∷ [] }

set_property_values-reference_example :
    set_property_values two_switches three_updates
    ≡ ok (record lamp {
      properties = record switch { value = codes "1" } ∷ record switch { read_only = true } ∷ [];
    })
unfolding with_updates
set_property_values-reference_example = set_property_values-reference two_switches three_updates
