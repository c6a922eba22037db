-- ===== src/Proxy/Connection.antt =====
-- Proxy.cpp: what the connection of the proxy reports. A connection to the port below the web port
-- makes this process a client of the host; a refusal makes it the host.
use sacs.Prelude.{Bool, Result, Text, [], if◌then◌else◌, ok, some, true, ℕ, ◌++◌, ◌>>=◌, ◌∷◌}
use sacs.State.{World, proxy_server_started}
use sacs.Json.{JsonLib}
use sacs.JsonMsg.{parse_msg}
use sacs.ModuleManager.{on_proxy_initialized, pass_update}

module _ {J : JsonLib} where
  -- ProxyServer::Init
  unfoldable pub start_proxy_server : World J → World J
  start_proxy_server w = record w {
    has_server = true;
    remote_modules = [];
    events = w.events ++ proxy_server_started w.proxy_port ∷ [];
  }

  -- Proxy::OnClientConnecting: the new state, and whether the client is kept. `connected` tells
  -- whether `err` is NetError::OK.
  unfoldable pub on_connecting : ℕ → Bool → World J → Result (Bool × World J)
  unfolding start_proxy_server on_proxy_initialized
  on_connecting client connected w = if w.proxy_initialized then ok (connected, w) else (do
    let first = record w { proxy_initialized = true }
    let assigned =
        if connected then record first { host = some client } else start_proxy_server first
    w' ← on_proxy_initialized assigned.has_server assigned
    ok (connected, w'))

  -- Proxy::OnClientRead, which does not look at the result of Parse.
  unfoldable pub on_read : Text → World J → Result (World J)
  unfolding pass_update
  on_read str w = do (msg, parsed) ← parse_msg J str; pass_update msg w
