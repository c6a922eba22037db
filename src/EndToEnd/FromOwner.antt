-- ===== src/EndToEnd/FromOwner.antt =====
-- What a program changes in a module of its process, on its way to the host and to the pages.
use sacs.ServerImpl.Listeners.{copies, living}
use sacs.Maps.{Map, assign, find}
use sacs.State.{World, emit, handle_message, host_sent, save_properties_list}
use sacs.ProxyServer.{local_id_from_remote}
use sacs.Prelude.{
  List, Text, [], arith, codes, none, ok, refl, some, true, ℕ, ℤ, ◌++◌, ◌>>=◌, ◌∷◌, ◌≡◌,
}
use sacs.Json.{JsonLaws, JsonLib}
use sacs.JsonMsg.{JsonMsg, parse_msg, set_msg_id}
use sacs.JsonMsg.Build.{create_property_updated}
use sacs.JsonMsg.RoundTrip.{Carries}
use sacs.Module.{Module, set_property_values}
use sacs.ModuleManager.{handle_msg, push_msg_for_js, update_properties}
use sacs.ModuleManager.Loop.{perform, run_task, run_tasks}
use sacs.Proxy.{push_to_host}
use sacs.ProxyServer.Relay.{on_client_read-property_update}
use sacs.ProxyServer.Session.{on_client_read}
use sacs.ServerImpl.Publishing.{run_save, run_save_handle, update_properties_posts}

module _ {J : JsonLib} where
  run_handle_client :
      (text : Text) (host : ℕ) (v : World J)
      → v.different_thread ≡ true
      → v.initialized ≡ true
      → v.server_impl ≡ none
      → v.host ≡ some host
      → run_task (handle_message text) v
        ≡ ok (record v { events = v.events ++ host_sent host text ∷ [] })
  unfolding run_task perform handle_msg push_msg_for_js push_to_host emit
  run_handle_client text host v d i s h = ground (arith, d, i, s, h)

  -- In a client process off its loop
  update_reaches_host :
      (id : ℤ) (us : List (ℤ × Text)) (p p' : Module) (text : Text) (host : ℕ) (v : World J)
      → v.different_thread ≡ true
      → v.initialized ≡ true
      → v.server_impl ≡ none
      → v.host ≡ some host
      → find id v.modules ≡ some p
      → set_property_values p us ≡ ok p'
      → create_property_updated J id us ≡ ok text
      → (do
        v₁ ← update_properties id us v
        run_tasks (save_properties_list id us ∷ handle_message text ∷ []) v₁)
        ≡ ok (record v {
          modules = assign id p' v.modules;
          posted = v.posted ++ save_properties_list id us ∷ handle_message text ∷ [];
          events = v.events ++ host_sent host text ∷ [];
        })
  unfolding run_tasks
  update_reaches_host id us p p' text host v d i s h filed saved made =
      let v₁ = record v {
        posted = v.posted ++ save_properties_list id us ∷ handle_message text ∷ [];
      } in
      let v₂ = record v₁ { modules = assign id p' v.modules } in
      rw
        (
          update_properties_posts id us text v d made,
          run_save id us p p' v₁ d filed saved,
          run_handle_client text host v₂ d i s h,
        )
        refl

module _ {J : JsonLib} (L : JsonLaws J) where
  -- A program changes properties of a module of its process, off the loop of an initialized client
  -- of the host, and the module is there, the updates can be saved on both sides, the text that
  -- CreatePropertyUpdated makes parses, and the message with its id set to the host's id of the
  -- module can be dumped. Then the process, when its loop has run the two tasks that this posts,
  -- has saved the updates and sent one text to the host. The initialized host, when the network
  -- thread reads that text and the loop has run the two tasks that this posts, has saved the same
  -- updates under its own id of the module, and each page that is still there has one text, which
  -- parses to the same updates under that id.
  pub owner_update_reaches_pages :
      (remote_id : ℤ) (us : List (ℤ × Text)) (p p' m m' : Module) (s text : Text)
      (msg msg' : JsonMsg J) (host client : ℕ) (listeners : Map ℕ) (v w : World J)
      → v.different_thread ≡ true
      → v.initialized ≡ true
      → v.server_impl ≡ none
      → v.host ≡ some host
      → find remote_id v.modules ≡ some p
      → set_property_values p us ≡ ok p'
      → create_property_updated J remote_id us ≡ ok s
      → w.different_thread ≡ true
      → w.initialized ≡ true
      → w.server_impl ≡ some listeners
      → find (local_id_from_remote remote_id (w.net.get_id client) w.remote_modules) w.modules
        ≡ some m
      → set_property_values m us ≡ ok m'
      → parse_msg J s ≡ ok (msg, true)
      → set_msg_id J msg (local_id_from_remote remote_id (w.net.get_id client) w.remote_modules)
        ≡ ok msg'
      → J.dump msg'.json ≡ some text
      → (let id = local_id_from_remote remote_id (w.net.get_id client) w.remote_modules in
          ((do
            v₁ ← update_properties remote_id us v
            run_tasks (save_properties_list remote_id us ∷ handle_message s ∷ []) v₁)
            ≡ ok (record v {
              modules = assign remote_id p' v.modules;
              posted = v.posted ++ save_properties_list remote_id us ∷ handle_message s ∷ [];
              events = v.events ++ host_sent host s ∷ [];
            }))
          × ((do
            w₁ ← on_client_read [] client s w
            run_tasks (save_properties_list id us ∷ handle_message text ∷ []) w₁)
              ≡ ok (record w {
                modules = assign id m' w.modules;
                server_impl = some (living w.net listeners);
                posted = w.posted ++ save_properties_list id us ∷ handle_message text ∷ [];
                events = w.events ++ copies text (living w.net listeners);
              }))
          × (parse_msg J text ≡ ok (msg', true))
          × Carries L (codes "property_update") id us msg')
  owner_update_reaches_pages remote_id us p p' m m' s text msg msg' host client listeners v w d i
        server h filed saved made d' i' pages filed' saved' parsed set_to dumped =
      let id = local_id_from_remote remote_id (w.net.get_id client) w.remote_modules in
      let (read, shown, c) =
        on_client_read-property_update L client [] w d' remote_id us s text msg msg' made parsed
          set_to dumped in
      let w₁ = record w {
        posted = w.posted ++ save_properties_list id us ∷ handle_message text ∷ [];
      } in
      (
        update_reaches_host remote_id us p p' s host v d i server h filed saved made,
        rw read (run_save_handle id us m m' text listeners w₁ d' i' pages filed' saved'),
        shown,
        c,
      )
