-- ===== src/ModuleManager.antt =====
-- ModuleManager.h and ModuleManager.cpp. An operation that runs on another thread than the loop's
-- posts itself, and `run_task` is what the loop runs later, in whatever order. Where a caller waits
-- for a result, `meanwhile` stands for the tasks that the loop runs before it gets to that one.
pub mod Loop
pub mod Frame
pub mod Registry
pub mod Answers
pub mod Delivery
pub mod Queue
pub mod Invariant
pub mod OnLoop
pub mod Spec
pub mod Refinement
use sacs.Prelude.{
  Bool, List, Result, Text, [], false, if◌then◌else◌, int_overflow, length, ltb, map, none, ok, pos,
  pred_ℤ, some, suc, throw, true, ℕ, ℤ, ◌++◌, ◌-◌, ◌>>=◌, ◌^◌, ◌∷◌,
}
use sacs.Maps.{assign, erase, find, insert}
use sacs.State.{
  Event, Net, World, called, emit, handle_message, pass_property_update, post, proxy_initialized,
  save_properties_list, unregister_module, web_server_started,
}
use sacs.Json.{JsonLib}
use sacs.JsonMsg.{JsonMsg, MsgType, find_id, get_properties_list, req_apply, req_load, to_string}
use sacs.JsonMsg.Build.{
  create_module_added, create_module_list, create_module_removed, create_property_updated,
  empty_json,
}
use sacs.Module.{Module, set_id, set_property_values}
use sacs.Proxy.{handle_property_update, no_port, proxy_init, push_to_host}
use sacs.ServerImpl.{push_to_pages}

-- The largest `int`.
abbrev pub int_max : ℕ
int_max = 2 ^ 31 - 1

-- The buffer of PassPropertyUpdateToModule for one value: its bytes and a NUL.
unfoldable pub c_buffer : Text → Text
c_buffer [] = 0 ∷ []
c_buffer (c ∷ value) = (c ∷ value) ++ 0 ∷ []

-- The call of the callback, with the arrays that the loop fills.
unfoldable pub call_back : ℕ → ℤ → List (ℤ × Text) → Event
unfolding c_buffer
call_back f module_id us =
    called f module_id (length us) (map (λ (u : ℤ × Text). u.0) us)
      (map (λ (u : ℤ × Text). c_buffer u.1) us)

module _ {J : JsonLib} where
  -- ModuleManager::ModuleManager, with Proxy::Proxy
  abbrev pub new_manager : ℤ → Net → World J
  new_manager port net = record {
    port = port;
    modules = [];
    msg_queue = [];
    id_counter = 0;
    initialized = false;
    server_impl = none;
    proxy_initialized = false;
    proxy_port = no_port;
    host = none;
    has_server = false;
    remote_modules = [];
    different_thread = true;
    posted = [];
    net = net;
    events = [];
  }

  -- ModuleManager::Create and Init
  abbrev pub init : ℤ → Net → World J
  init port net = proxy_init (pred_ℤ port) (new_manager port net)

  -- The branch that HandleMessage and OnProxyInitialized share.
  unfoldable pub push_msg_for_js : Text → World J → Result (World J)
  unfolding push_to_pages push_to_host
  push_msg_for_js msg w = elim w.server_impl [
    | some listeners ↦ ok (push_to_pages msg listeners w)
    | none ↦ push_to_host msg w
  ]

  -- The loop over _msg_queue
  unfoldable pub push_all : List Text → World J → Result (World J)
  push_all [] w = ok w
  push_all (msg ∷ rest) w = do w' ← push_msg_for_js msg w; push_all rest w'

  abbrev pub start_server : Bool → World J → World J
  start_server true w = record w {
    server_impl = some [];
    events = w.events ++ web_server_started w.port ∷ [];
  }
  start_server false w = w

  -- ModuleManager::OnProxyInitialized
  unfoldable pub on_proxy_initialized : Bool → World J → Result (World J)
  unfolding post push_all
  on_proxy_initialized host_mode w =
      if w.different_thread then ok (post (proxy_initialized host_mode) w) else (do
        w' ← push_all w.msg_queue (record (start_server host_mode w) { initialized = true })
        ok (record w' { msg_queue = [] }))

  -- ModuleManager::HandleMessage
  unfoldable pub handle_msg : Text → World J → Result (World J)
  unfolding post
  handle_msg msg w =
      if w.different_thread
      then ok (post (handle_message msg) w)
      else if w.initialized
      then push_msg_for_js msg w
      else ok (record w { msg_queue = w.msg_queue ++ msg ∷ [] })

  -- ModuleManager::DoRegisterModule, with the value of the promise. The counter is an `int`.
  unfoldable pub do_register_module : Module → World J → Result (ℤ × World J)
  unfolding set_id
  do_register_module m w =
      if ltb w.id_counter int_max
      then (do
        let mod_id = pos w.id_counter
        let m' = set_id m mod_id
        text ← create_module_added J m'
        w' ←
            handle_msg text
              (record w { id_counter = suc w.id_counter; modules = insert mod_id m' w.modules })
        ok (mod_id, w'))
      else throw int_overflow

  -- ModuleManager::UnregisterModule
  unfoldable pub unregister : ℤ → World J → Result (World J)
  unfolding post
  unregister module_id w =
      if w.different_thread then ok (post (unregister_module module_id) w) else (do
        text ← create_module_removed J module_id
        handle_msg text (record w { modules = erase module_id w.modules }))

  -- ModuleManager::SavePropertiesList
  unfoldable pub save_list : ℤ → List (ℤ × Text) → World J → Result (World J)
  unfolding post
  save_list module_id us w =
      if w.different_thread
      then ok (post (save_properties_list module_id us) w)
      else elim (find module_id w.modules) [
        | none ↦ ok w
        | some m ↦ (do
          m' ← set_property_values m us
          ok (record w { modules = assign module_id m' w.modules }))
      ]

  -- ModuleManager::UpdateProperties with a list
  unfoldable pub update_properties : ℤ → List (ℤ × Text) → World J → Result (World J)
  unfolding save_list handle_msg
  update_properties module_id us w = do
    w' ← save_list module_id us w
    text ← create_property_updated J module_id us
    handle_msg text w'

  -- ModuleManager::UpdateProperties with a message, and SaveProperties
  unfoldable pub update_properties_msg : ℤ → JsonMsg J → World J → Result (World J)
  unfolding save_list handle_msg
  update_properties_msg module_id msg w = do
    (msg', us) ← get_properties_list J msg
    w' ← save_list module_id us w
    text ← to_string J msg'
    handle_msg text w'

  -- ModuleManager::PassPropertyUpdateToModule, from the list of properties on
  unfoldable pub deliver : ℤ → Module → JsonMsg J → List (ℤ × Text) → World J → Result (World J)
  unfolding save_list call_back handle_property_update emit
  deliver module_id m msg [] w = ok w
  deliver module_id m msg (u ∷ us) w = do
    w' ← save_list module_id (u ∷ us) w
    elim m.callback [
      | none ↦ handle_property_update msg w'
      | some f ↦ ok (emit (call_back f module_id (u ∷ us) ∷ []) w')
    ]

  -- ModuleManager::PassPropertyUpdateToModule
  unfoldable pub pass_update : JsonMsg J → World J → Result (World J)
  unfolding post deliver
  pass_update msg w = if w.different_thread then ok (post (pass_property_update msg) w) else (do
    module_id ← find_id J msg
    elim (find module_id w.modules) [
      | none ↦ ok w
      | some m ↦ (do (msg', us) ← get_properties_list J msg; deliver module_id m msg' us w)
    ])

  -- The switch of ModuleManager::DoProcessJSRequest, with the value of the promise. The case of
  -- REQ_LOAD falls through into that of REQ_APPLY.
  unfoldable pub respond : MsgType → JsonMsg J → World J → Result (Text × World J)
  respond req_load msg w = do
    list ← create_module_list J w.modules
    w' ← pass_update msg w
    ok (list, w')
  respond req_apply msg w = do w' ← pass_update msg w; ok (empty_json J, w')
  respond _ msg w = ok (empty_json J, w)

  -- ModuleManager::DoProcessJSRequest
  unfoldable pub do_process_js_request : JsonMsg J → World J → Result (Text × World J)
  unfolding respond
  do_process_js_request msg w = respond msg.type msg w
