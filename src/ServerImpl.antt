-- ===== src/ServerImpl.antt =====
-- ServerImpl.h and ServerImpl.cpp: the web pages that listen for messages. The mutex makes each of
-- the three operations one step. The requests of web pages are in `Requests`.
pub mod Listeners
pub mod Requests
pub mod Files
pub mod Publishing
use sacs.Prelude.{Bool, true, List, Text, [], if◌then◌else◌, some, ℕ, ◌∷◌}
use sacs.Maps.{Map, erase, insert}
use sacs.Json.{JsonLib}
use sacs.State.{Event, Net, World, emit, ws_sent}

-- The loop of ServerImpl::PushMsgForJS: the listeners that stay, and what is sent.
unfoldable pub push_each_listener : Net → Text → Map ℕ → Map ℕ × List Event
push_each_listener net msg [] = ([], [])
push_each_listener net msg ((id, client) ∷ rest) =
    let (kept, sent) = push_each_listener net msg rest in
    if net.alive client then ((id, client) ∷ kept, ws_sent client msg ∷ sent) else (kept, sent)

module _ {J : JsonLib} where
  -- ServerImpl::PushMsgForJS
  unfoldable pub push_to_pages : Text → Map ℕ → World J → World J
  unfolding push_each_listener emit
  push_to_pages msg listeners w =
      let (kept, sent) = push_each_listener w.net msg listeners in
      emit sent (record w { server_impl = some kept })

  -- ServerImpl::AddEventListener
  unfoldable pub add_event_listener : ℕ → Map ℕ → World J → World J
  add_event_listener client listeners w = record w {
    server_impl = some (insert (w.net.get_id client) client listeners);
  }

  -- ServerImpl::RemoveEventListener
  unfoldable pub remove_event_listener : ℕ → Map ℕ → World J → World J
  remove_event_listener client listeners w = record w {
    server_impl = some (erase (w.net.get_id client) listeners);
  }

  -- ServerImpl::OnWsClientConnected, which accepts every page.
  abbrev pub on_ws_client_connected : ℕ → Map ℕ → World J → Bool × World J
  on_ws_client_connected client listeners w = (true, add_event_listener client listeners w)

  -- ServerImpl::OnWsClientClosed
  abbrev pub on_ws_client_closed : ℕ → Map ℕ → World J → World J
  on_ws_client_closed client listeners w = remove_event_listener client listeners w
