-- ===== src/State.antt =====
-- The state of one process: the fields of ModuleManager, ServerImpl, Proxy and ProxyServer, with the
-- effects that the code has outside of it.
use sacs.Prelude.{Bool, List, Option, Text, [], ℕ, ℤ, ◌++◌, ◌∷◌}
use sacs.Json.{JsonLib}
use sacs.JsonMsg.{JsonMsg}
use sacs.Maps.{Map}
use sacs.Module.{Module}

-- What an operation makes others see, in the order in which it happens. A `Client` of the network
-- library is a number.
pub data Event : Type 0 where
  -- ServerImpl sends to a web page.
  ws_sent : ℕ → Text → Event
  -- Proxy sends to the host process.
  host_sent : ℕ → Text → Event
  -- ProxyServer sends to a process that is connected.
  peer_sent : ℕ → Text → Event
  -- A module's callback gets a module id, a count, and the arrays of indices and of C strings.
  called : ℕ → ℤ → ℕ → List ℤ → List Text → Event
  -- WebsocketServer::Init and Connection::CreateServer are asked to listen.
  web_server_started : ℤ → Event
  proxy_server_started : ℤ → Event

-- The network library as an operation finds it: the id of a client, whether a weak pointer to it
-- still locks, Server::GetClient, and whether ThreadLoop::Post runs a call at once when it is made on
-- the thread of the loop, or else queues it.
pub record Net : Type 0 where
  pub get_id : ℕ → ℤ
  pub alive : ℕ → Bool
  pub get_client : ℤ → Option ℕ
  pub runs_at_once : Bool

-- The calls that the code posts to the thread of ThreadLoop.
pub data Task (J : JsonLib) : Type 0 where
  proxy_initialized : Bool → Task J
  handle_message : Text → Task J
  unregister_module : ℤ → Task J
  save_properties_list : ℤ → List (ℤ × Text) → Task J
  pass_property_update : JsonMsg J → Task J
  register_module : Module → Task J
  process_js_request : JsonMsg J → Task J

pub record World (J : JsonLib) : Type 0 where
  -- ModuleManager
  pub port : ℤ
  pub modules : Map Module
  pub msg_queue : List Text
  pub id_counter : ℕ
  pub initialized : Bool
  -- ServerImpl, once it is made: its _event_listeners
  pub server_impl : Option (Map ℕ)
  -- Proxy: _initialized, _port, _client, and whether _server is set
  pub proxy_initialized : Bool
  pub proxy_port : ℤ
  pub host : Option ℕ
  pub has_server : Bool
  -- ProxyServer: local id, remote id and client
  pub remote_modules : Map (ℤ × ℤ)
  -- ThreadLoop: OnDifferentThread for the thread that runs the code, and what was posted
  pub different_thread : Bool
  pub posted : List (Task J)
  pub net : Net
  pub events : List Event

module _ {J : JsonLib} where
  unfoldable pub post : Task J → World J → World J
  post task w = record w { posted = w.posted ++ task ∷ [] }

  unfoldable pub emit : List Event → World J → World J
  emit es w = record w { events = w.events ++ es }
