-- ===== src/ServerImpl/Publishing.antt =====
-- What the pages of the host get: the updates that the host's program makes to its modules, and the
-- answers to their own requests.
use sacs.Maps.{Map, assign, find}
use sacs.State.{
  Task, World, emit, handle_message, post, process_js_request, save_properties_list, ws_sent,
}
use sacs.Prelude.{
  List, Text, [], append_assoc, arith, false, ok, refl, some, true, ℕ, ℤ, ◌++◌, ◌>>=◌, ◌∷◌, ◌≡◌,
}
use sacs.Json.{JsonLib}
use sacs.JsonMsg.{JsonMsg, parse_msg, req_load}
use sacs.JsonMsg.Build.{create_module_list, create_property_updated}
use sacs.Module.{Module, set_property_values}
use sacs.ModuleManager.{handle_msg, push_msg_for_js, save_list, update_properties}
use sacs.ModuleManager.Answers.{load_changes_nothing}
use sacs.ModuleManager.Invariant.{run_tasks_posted-Registered}
use sacs.ModuleManager.Loop.{enter, leave, perform, process_request, run_task, run_tasks}
use sacs.ModuleManager.Registry.{Registered}
use sacs.ServerImpl.Listeners.{copies, living, push_to_pages_lem}
use sacs.ServerImpl.Requests.{on_ws_client_message}

module _ {J : JsonLib} where
  pub update_properties_posts :
      (id : ℤ) (us : List (ℤ × Text)) (text : Text) (w : World J)
      → w.different_thread ≡ true
      → create_property_updated J id us ≡ ok text
      → update_properties id us w
        ≡ ok (record w {
          posted = w.posted ++ save_properties_list id us ∷ handle_message text ∷ [];
        })
  unfolding update_properties save_list handle_msg post
  update_properties_posts id us text w d made = ground (
    arith,
    made,
    append_assoc w.posted (save_properties_list id us ∷ []) (handle_message text ∷ []),
  )

  pub run_save :
      (id : ℤ) (us : List (ℤ × Text)) (m m' : Module) (w : World J)
      → w.different_thread ≡ true
      → find id w.modules ≡ some m
      → set_property_values m us ≡ ok m'
      → run_task (save_properties_list id us) w ≡ ok (record w { modules = assign id m' w.modules })
  unfolding run_task perform save_list
  run_save id us m m' w d h e = rw (h, e, ← d) refl

  run_handle :
      (text : Text) (listeners : Map ℕ) (w : World J)
      → w.different_thread ≡ true
      → w.initialized ≡ true
      → w.server_impl ≡ some listeners
      → run_task (handle_message text) w
        ≡ ok (record w {
          server_impl = some (living w.net listeners);
          events = w.events ++ copies text (living w.net listeners);
        })
  unfolding run_task perform handle_msg push_msg_for_js
  run_handle text listeners w d i s = ground (arith, push_to_pages_lem text listeners (enter w))

  -- The loop of the host saves updates and shows them.
  pub run_save_handle :
      (id : ℤ) (us : List (ℤ × Text)) (m m' : Module) (text : Text) (listeners : Map ℕ)
      (w : World J)
      → w.different_thread ≡ true
      → w.initialized ≡ true
      → w.server_impl ≡ some listeners
      → find id w.modules ≡ some m
      → set_property_values m us ≡ ok m'
      → run_tasks (save_properties_list id us ∷ handle_message text ∷ []) w
        ≡ ok (record w {
          modules = assign id m' w.modules;
          server_impl = some (living w.net listeners);
          events = w.events ++ copies text (living w.net listeners);
        })
  unfolding run_tasks
  run_save_handle id us m m' text listeners w d i s h e =
      rw
        (
          run_save id us m m' w d h e,
          run_handle text listeners (record w { modules = assign id m' w.modules }) d i s,
        )
        refl

  -- In the host, off the loop's thread, an update of properties of a module that is there, where
  -- the updates can be saved and the message can be dumped, posts two tasks; when the loop has run
  -- them, the updates are saved and each page that is still there has the message once, and nothing
  -- else has changed but that the other pages are forgotten.
  pub update_reaches_pages :
      (id : ℤ) (us : List (ℤ × Text)) (m m' : Module) (text : Text) (listeners : Map ℕ)
      (w : World J)
      → w.different_thread ≡ true
      → w.initialized ≡ true
      → w.server_impl ≡ some listeners
      → find id w.modules ≡ some m
      → set_property_values m us ≡ ok m'
      → create_property_updated J id us ≡ ok text
      → (do
        w₁ ← update_properties id us w
        run_tasks (save_properties_list id us ∷ handle_message text ∷ []) w₁)
        ≡ ok (record w {
          modules = assign id m' w.modules;
          server_impl = some (living w.net listeners);
          posted = w.posted ++ save_properties_list id us ∷ handle_message text ∷ [];
          events = w.events ++ copies text (living w.net listeners);
        })
  update_reaches_pages id us m m' text listeners w d i s h e made =
      let w₁ = record w {
        posted = w.posted ++ save_properties_list id us ∷ handle_message text ∷ [];
      } in
      rw (update_properties_posts id us text w d made)
        (run_save_handle id us m m' text listeners w₁ d i s h e)

  -- A page's text, off the loop's thread, that parses to a request to load, in a process whose
  -- registry is in order: if the tasks before it end and the list can be dumped, the page gets the
  -- list of the modules as the loop finds them, and nothing else changes.
  pub load_is_answered :
      (meanwhile : List (Task J)) (client : ℕ) (str list : Text) (msg : JsonMsg J) (w w₁ : World J)
      → w.different_thread ≡ true
      → Registered w
      → parse_msg J str ≡ ok (msg, true)
      → msg.type ≡ req_load
      → run_tasks meanwhile (post (process_js_request msg) w) ≡ ok w₁
      → create_module_list J w₁.modules ≡ ok list
      → on_ws_client_message meanwhile client false str w
        ≡ ok (record (leave w₁) { events = w₁.events ++ ws_sent client list ∷ [] })
  unfolding on_ws_client_message process_request emit
  load_is_answered meanwhile client str list msg w w₁ d r parsed kind ran listed =
      let r₁ = run_tasks_posted-Registered meanwhile (process_js_request msg) w r ran in
      ground (arith, parsed, ran, load_changes_nothing msg list (enter w₁) kind refl r₁ listed)
