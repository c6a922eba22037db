-- ===== src/EndToEnd/Shown.antt =====
-- A change that a program makes to a module of its process, on its way to what a page of the host
-- shows.
use sacs.Prelude.{List, Text, [], none, ok, some, true, ℕ, ℤ, ◌++◌, ◌>>=◌, ◌∙◌, ◌∷◌, ◌≡◌}
use sacs.Maps.{Map, assign, find}
use sacs.ServerImpl.Listeners.{copies, living}
use sacs.Page.Environment.{Browser, BrowserLaws}
use sacs.EndToEnd.FromOwner.{owner_update_reaches_pages}
use sacs.Json.{JsonLaws, JsonLib}
use sacs.JsonMsg.{JsonMsg, parse_msg, set_msg_id}
use sacs.JsonMsg.Build.{create_property_updated}
use sacs.Module.{Module, set_property_values}
use sacs.ModuleManager.{update_properties}
use sacs.ModuleManager.Loop.{run_tasks}
use sacs.ModuleManager.Registry.{Registered}
use sacs.Page.{Page}
use sacs.Page.Updated.{on_message-relayed}
use sacs.Page.Messages.{on_message}
use sacs.Page.Mirror.{Mirrors}
use sacs.Page.Mirror.Steps.{show_updates-Mirrors}
use sacs.Page.Mirror.Updates.{can_show, types_of}
use sacs.ProxyServer.{local_id_from_remote}
use sacs.ProxyServer.Session.{on_client_read}
use sacs.State.{World, handle_message, host_sent, save_properties_list}

module _ {J : JsonLib} (L : JsonLaws J) {B : Browser} (C : BrowserLaws J B) where
  -- A program changes properties of a module of its process, off the loop of an initialized client
  -- of the host, and the module is there and the updates can be saved. The text that
  -- CreatePropertyUpdated makes parses, and with its id set to the host's id of the module it can
  -- be dumped. The initialized host, whose registry is in order and which a page shows, reads that
  -- text off its loop, and has a module under that id, of which the updates change properties that
  -- are no scripts. Then the process, when its loop has run the two tasks that this posts, has
  -- saved the updates and sent one text to the host. The host, when its loop has run the two tasks
  -- that the text posts, has saved the same updates and sent one text to each page that is still
  -- there. The page handles that text without an exception, and shows the host's registry with the
  -- updates. To show the registry is to have the modules in their order, with their ids and names,
  -- and for each property, in their order, a widget with the type and the kind of content that the
  -- page has for that of the property, that waits for the apply button where that type does, and
  -- has the property's name, but for a script. Unless the property is read-only or a script, the
  -- widget has its value, as its input takes it; a log begins with it, or is empty where the value
  -- is. The buttons in the selector are then those of these modules, in their order, with their
  -- names, and the module that is selected is one of them and is in the container.
  pub owner_update_is_shown :
      (remote_id : ℤ) (us : List (ℤ × Text)) (q q' m : Module) (s text : Text)
      (msg msg' : JsonMsg J) (host client : ℕ) (listeners : Map ℕ) (v w : World J) (p : Page B)
      → v.different_thread ≡ true
      → v.initialized ≡ true
      → v.server_impl ≡ none
      → v.host ≡ some host
      → find remote_id v.modules ≡ some q
      → set_property_values q us ≡ ok q'
      → create_property_updated J remote_id us ≡ ok s
      → w.different_thread ≡ true
      → w.initialized ≡ true
      → w.server_impl ≡ some listeners
      → Registered w
      → find (local_id_from_remote remote_id (w.net.get_id client) w.remote_modules) w.modules
        ≡ some m
      → can_show B (types_of m.properties) us ≡ true
      → parse_msg J s ≡ ok (msg, true)
      → set_msg_id J msg (local_id_from_remote remote_id (w.net.get_id client) w.remote_modules)
        ≡ ok msg'
      → J.dump msg'.json ≡ some text
      → Mirrors B w.modules p
      → (let id = local_id_from_remote remote_id (w.net.get_id client) w.remote_modules in
          (m' : Module) × (p' : Page B) × ((do
            v₁ ← update_properties remote_id us v
            run_tasks (save_properties_list remote_id us ∷ handle_message s ∷ []) v₁)
            ≡ ok (record v {
              modules = assign remote_id q' v.modules;
              posted = v.posted ++ save_properties_list remote_id us ∷ handle_message s ∷ [];
              events = v.events ++ host_sent host s ∷ [];
            }))
          × ((do
            w₁ ← on_client_read [] client s w
            run_tasks (save_properties_list id us ∷ handle_message text ∷ []) w₁)
              ≡ ok (record w {
                modules = assign id m' w.modules;
                server_impl = some (living w.net listeners);
                posted = w.posted ++ save_properties_list id us ∷ handle_message text ∷ [];
                events = w.events ++ copies text (living w.net listeners);
              }))
          × (set_property_values m us ≡ ok m')
          × (on_message text p ≡ ok p')
          × Mirrors B (assign id m' w.modules) p')
  owner_update_is_shown remote_id us q q' m s text msg msg' host client listeners v w p d i server h
        filed saved made d' i' pages r filed' can parsed set_to dumped shown =
      let id = local_id_from_remote remote_id (w.net.get_id client) w.remote_modules in
      let (m', p', saved', e, shown') =
        show_updates-Mirrors C id m us w.modules p shown r.sorted filed' can in
      let (sent, taken, _, _) =
        owner_update_reaches_pages L remote_id us q q' m m' s text msg msg' host client listeners v
          w d i server h filed saved made d' i' pages filed' saved' parsed set_to dumped in
      (
        m',
        p',
        sent,
        taken,
        saved',
        on_message-relayed L C remote_id id us s text msg msg' p made parsed set_to dumped ∙ e,
        shown',
      )
