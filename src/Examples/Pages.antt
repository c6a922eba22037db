-- ===== src/Examples/Pages.antt =====
-- A page of the host, at concrete inputs.
use sacs.Wrapper.{button_sw}
use sacs.Prelude.{
  List, Text, [], arith, codes, false, inl, ok, pos, refl, some, some_injective, subst, text_eq,
  throw, true, type_error, ◌>>=◌, ◌∷◌, ◌≡◌,
}
use sacs.Maps.{assign, find}
use sacs.EndToEnd.Astray.{missing_module, update_past_end}
use sacs.EndToEnd.Hosting.{HostRun, Hosting, done, first, updates}
use sacs.EndToEnd.Pages.{broadcast, on_messages, page_follows_host}
use sacs.EndToEnd.Requests.{apply_button_calls_back}
use sacs.Examples.Scene.{
  host_world, host_world-Registered, lamp, own_lamp, sent_on, text_of, turned_on,
  turned_on-own_lamp, update, value_or,
}
use sacs.Examples.SimpleBrowser.{of_tree, simple_browser, simple_browser_laws}
use sacs.Examples.SimpleJson.{cons_obj, nil_obj, num, simple_json, simple_laws, str}
use sacs.JsonMsg.{JsonMsg, detect_type, set_msg_id}
use sacs.JsonMsg.Build.{
  create_module_list, create_module_removed, create_property_updated, empty_json,
}
use sacs.Module.{Module, set_property_value, set_property_values}
use sacs.Module.Update.{Saved}
use sacs.ModuleManager.{call_back, handle_msg, push_msg_for_js, save_list, update_properties}
use sacs.ModuleManager.Loop.{run_tasks}
use sacs.ModuleManager.Registry.{Registered-at}
use sacs.Page.{ModuleButton, Page, PageModule, Widget, checked, from_id}
use sacs.EndToEnd.Shown.{owner_update_is_shown}
use sacs.Examples.Messages.{
  network_world, owner, updated_msg, updated_text, updated_text-updated_msg,
}
use sacs.State.{
  World, handle_message, host_sent, post, process_js_request, save_properties_list, ws_sent,
}
use sacs.Page.Countdown.{countdown_reconnects}
use sacs.Page.Reconnection.{Act, OneTimer, act_each, clicks, disable, enable, new_info, ticks}
use sacs.Page.Messages.{on_connected, on_disconnected, on_message, on_properties_activated, send}
use sacs.Page.Mirror.{Mirrors, has_title, listed}
use sacs.Page.Selector.{button_of}
use sacs.ServerImpl.{push_to_pages}
use sacs.ServerImpl.Requests.{on_ws_client_message}
use sacs.State.{
  World, handle_message, host_sent, post, process_js_request, save_properties_list, ws_sent,
}
use sacs.ProxyServer.{local_id_from_remote}
use sacs.ProxyServer.Session.{on_client_read}

abbrev widget : Widget simple_browser
widget = record {
  type = button_sw;
  label = some (of_tree (str (codes "power")));
  is_independent = false;
  content = checked false;
}

abbrev lamp_module : PageModule simple_browser
lamp_module = record {
  object_no = 0;
  id = of_tree (num (pos 0));
  name = of_tree (str (codes "lamp"));
  properties = widget ∷ [];
  has_apply_button = true;
}

abbrev lamp_button : ModuleButton simple_browser
lamp_button = record {
  module_no = 0;
  label = of_tree (str (codes "lamp"));
  in_selector = true;
  is_selected = true;
}

-- The page that shows the host's module.
abbrev page : Page simple_browser
page = record {
  created = 1;
  modules = (of_tree (num (pos 0)), lamp_module) ∷ [];
  buttons = lamp_button ∷ [];
  current = some 0;
  contained = some 0;
  sent = [];
}

page-Mirrors : Mirrors simple_browser host_world.modules page
unfolding from_id button_of text_eq
page-Mirrors = record {
  entries = (
    (
      refl,
      refl,
      record {
        id = refl;
        name = refl;
        properties = (
          record {
            type = button_sw;
            known = refl;
            typed = refl;
            independent = refl;
            labelled = refl;
            fits = refl;
            value = λ c r e. some_injective e;
            logged = λ r. tt;
          },
          tt,
        );
      },
      (lamp_button, refl),
    ),
    tt,
  );
  selected = λ nr e.
      subst (λ n. (b : ModuleButton simple_browser) × (button_of n (lamp_button ∷ []) ≡ some b))
        (some_injective e) (lamp_button, refl);
  selector = refl;
  in_place = λ nr e.
      subst (λ n. (has_title n (listed (lamp_button ∷ [])) ≡ true) × (some 0 ≡ some n))
        (some_injective e) (refl, refl);
  rising = (omega arith, omega arith);
}

abbrev update_text : Text
update_text = value_or [] (create_property_updated simple_json (pos 0) (update ∷ []))

abbrev switched_world : World simple_json
switched_world = record host_world {
  modules = (pos 0, turned_on lamp) ∷ [];
  server_impl = some ((pos 1, 1) ∷ []);
  events = ws_sent 1 update_text ∷ [];
}

host_world-Hosting : Hosting ((pos 1, 1) ∷ (pos 2, 2) ∷ []) host_world
host_world-Hosting = record {
  on_loop = refl;
  initialized = refl;
  pages = refl;
  registered = host_world-Registered;
}

switches : HostRun simple_browser host_world switched_world
unfolding find from_id update_properties save_list set_property_values set_property_value assign
    handle_msg push_msg_for_js push_to_pages create_property_updated
switches = first (updates (pos 0) (update ∷ []) lamp refl refl refl) done

page_follows_host_example :
    (texts : List Text) × (p : Page simple_browser) × (switched_world.events
      ≡ broadcast texts ((pos 1, 1) ∷ []))
    × (on_messages texts page ≡ ok p)
    × Mirrors simple_browser ((pos 0, turned_on lamp) ∷ []) p
page_follows_host_example =
    page_follows_host simple_laws simple_browser_laws ((pos 1, 1) ∷ (pos 2, 2) ∷ []) host_world
      switched_world page host_world-Hosting page-Mirrors switches

abbrev off_loop : World simple_json
off_loop = record host_world { different_thread = true }

abbrev load_request : JsonMsg simple_json
load_request = record {
  json = cons_obj (codes "type") (str (codes "load")) nil_obj;
  is_valid = true;
  type = detect_type (codes "load");
}

abbrev module_list : Text
module_list = value_or [] (create_module_list simple_json host_world.modules)

-- The page when it has lost its connection and got another.
abbrev page_again : Page simple_browser
page_again = on_connected (on_disconnected page)

-- The host's own module, and the page with its switch set by the user.
abbrev own : Module
own = record lamp { callback = some 9 }

abbrev own_host : World simple_json
own_host = record off_loop { modules = (pos 0, own) ∷ [] }

abbrev entered_module : PageModule simple_browser
entered_module = record lamp_module { properties = record widget { content = checked true } ∷ [] }

apply_button_calls_back_example :
    (text : Text) × (msg : JsonMsg simple_json) × (m : Module) × (on_properties_activated
        entered_module page
      ≡ ok (send text page))
    × (Saved own (update ∷ []) m
        × (on_ws_client_message [] 1 false text own_host
            ≡ ok (record own_host {
              modules = assign (pos 0) m own_host.modules;
              posted = process_js_request msg ∷ [];
              events = call_back 9 (pos 0) (update ∷ []) ∷ ws_sent 1 (empty_json simple_json) ∷ [];
            })))
unfolding find
apply_button_calls_back_example =
    apply_button_calls_back simple_laws simple_browser_laws entered_module (pos 0) (0, codes "1") []
      1 9 own own_host page refl refl refl refl refl refl

abbrev behind_text : Text
behind_text = value_or [] (create_property_updated simple_json (pos 0) ((pos 1, codes "1") ∷ []))

update_past_end_example :
    (set_property_values lamp ((pos 1, codes "1") ∷ []) ≡ ok lamp)
    × (on_message behind_text page ≡ throw type_error)
unfolding find create_property_updated
update_past_end_example =
    update_past_end simple_laws simple_browser_laws (pos 0) lamp 1 (codes "1") behind_text
      host_world.modules page page-Mirrors refl (omega arith) refl

abbrev removed_text : Text
removed_text = value_or [] (create_module_removed simple_json (pos 4))

abbrev other_text : Text
other_text = value_or [] (create_property_updated simple_json (pos 4) (update ∷ []))

missing_module_example :
    (on_message removed_text page ≡ throw type_error) × (on_message other_text page ≡ ok page)
unfolding find create_property_updated create_module_removed
missing_module_example =
    missing_module simple_laws simple_browser_laws (pos 4) (update ∷ []) removed_text other_text
      host_world.modules page page-Mirrors refl refl refl

-- The user clicks once while the page counts down.
abbrev acts : List Act
acts = ticks ∷ ticks ∷ ticks ∷ clicks ∷ ticks ∷ ticks ∷ ticks ∷ ticks ∷ ticks ∷ ticks ∷ ticks ∷ []

countdown_reconnects_example :
    OneTimer (act_each acts (enable new_info))
    × ((act_each acts (enable new_info)).sockets ≡ 3)
    × ((disable (act_each acts (enable new_info))).timers ≡ [])
countdown_reconnects_example = countdown_reconnects acts new_info (inl refl)

owner_update_is_shown_example :
    (m : Module) × (p : Page simple_browser) × ((do
      v₁ ← update_properties (pos 5) (update ∷ []) owner
      run_tasks (save_properties_list (pos 5) (update ∷ []) ∷ handle_message updated_text ∷ []) v₁)
      ≡ ok (record owner {
        modules = assign (pos 5) (turned_on own_lamp) owner.modules;
        posted = save_properties_list (pos 5) (update ∷ []) ∷ handle_message updated_text ∷ [];
        events = host_sent 4 updated_text ∷ [];
      }))
    × ((do
      w₁ ← on_client_read [] 3 updated_text network_world
      run_tasks
          (save_properties_list (pos 0) (update ∷ [])
            ∷ handle_message (text_of (sent_on updated_msg (pos 0)))
            ∷ [])
          w₁)
        ≡ ok (record network_world {
          modules = assign (pos 0) m network_world.modules;
          server_impl = some ((pos 1, 1) ∷ []);
          posted =
              save_properties_list (pos 0) (update ∷ [])
              ∷ handle_message (text_of (sent_on updated_msg (pos 0)))
              ∷ [];
          events = ws_sent 1 (text_of (sent_on updated_msg (pos 0))) ∷ [];
        }))
    × (set_property_values lamp (update ∷ []) ≡ ok m)
    × (on_message (text_of (sent_on updated_msg (pos 0))) page ≡ ok p)
    × Mirrors simple_browser (assign (pos 0) m network_world.modules) p
unfolding create_property_updated set_msg_id local_id_from_remote find from_id
owner_update_is_shown_example =
    owner_update_is_shown simple_laws simple_browser_laws (pos 5) (update ∷ []) own_lamp
      (turned_on own_lamp) lamp updated_text (text_of (sent_on updated_msg (pos 0))) updated_msg
      (sent_on updated_msg (pos 0)) 4 3 ((pos 1, 1) ∷ (pos 2, 2) ∷ []) owner network_world page refl
      refl refl refl refl turned_on-own_lamp refl refl refl refl
      (Registered-at refl refl host_world-Registered) refl refl updated_text-updated_msg refl refl
      page-Mirrors
