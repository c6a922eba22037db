-- ===== src/Proxy/Roles.antt =====
-- Proxy.cpp: how a process comes to be the host, or a client of the host.
use sacs.State.{World, post, proxy_initialized, proxy_server_started}
use sacs.Prelude.{
  Bool, List, Result, [], arith, false, ok, refl, some, true, ℕ, ◌++◌, ◌>>=◌, ◌∷◌, ◌≡◌,
}
use sacs.Json.{JsonLib}
use sacs.ModuleManager.{on_proxy_initialized}
use sacs.Proxy.Connection.{on_connecting, start_proxy_server}

module _ {J : JsonLib} where
  -- Proxy::OnClientConnecting for each of a list of clients.
  unfoldable pub connect_each : List (ℕ × Bool) → World J → Result (World J)
  unfolding on_connecting
  connect_each [] w = ok w
  connect_each ((client, connected) ∷ rest) w = do
    (kept, w') ← on_connecting client connected w
    connect_each rest w'

  -- A client of the host keeps the connection; the host starts its proxy server with an empty table.
  abbrev pub settled : ℕ → Bool → World J → World J
  settled client true w = record w {
    proxy_initialized = true;
    host = some client;
    posted = w.posted ++ proxy_initialized false ∷ [];
  }
  settled client false w = record w {
    proxy_initialized = true;
    has_server = true;
    remote_modules = [];
    events = w.events ++ proxy_server_started w.proxy_port ∷ [];
    posted = w.posted ++ proxy_initialized true ∷ [];
  }

  on_connecting-later :
      (client : ℕ) (connected : Bool) (w : World J)
      → w.proxy_initialized ≡ true
      → on_connecting client connected w ≡ ok (connected, w)
  unfolding on_connecting
  on_connecting-later client connected w h = ground arith

  connect_each_settled :
      (later : List (ℕ × Bool)) (w : World J)
      → w.proxy_initialized ≡ true
      → connect_each later w ≡ ok w
  unfolding connect_each
  connect_each_settled [] w h = refl
  connect_each_settled ((client, connected) ∷ rest) w h =
      rw (on_connecting-later client connected w h) (connect_each_settled rest w h)

  on_connecting-settled :
      (client : ℕ) (connected : Bool) (w : World J)
      → w.different_thread ≡ true
      → w.proxy_initialized ≡ false
      → w.has_server ≡ false
      → on_connecting client connected w ≡ ok (connected, settled client connected w)
  unfolding on_connecting on_proxy_initialized post start_proxy_server
  on_connecting-settled client true w d i s = ground arith
  on_connecting-settled client false w d i s = ground arith

  settled-initialized :
      (client : ℕ) (connected : Bool) (w : World J)
      → (settled client connected w).proxy_initialized ≡ true
  settled-initialized client true w = refl
  settled-initialized client false w = refl

  -- Off the loop's thread, in a process whose proxy is not initialized and has no server, the first
  -- outcome of a connection settles whether the process is a client of the host or the host itself,
  -- which is posted to the manager once; later outcomes change nothing.
  pub first_outcome_settles :
      (client : ℕ) (connected : Bool) (later : List (ℕ × Bool)) (w : World J)
      → w.different_thread ≡ true
      → w.proxy_initialized ≡ false
      → w.has_server ≡ false
      → connect_each ((client, connected) ∷ later) w ≡ ok (settled client connected w)
  unfolding connect_each
  first_outcome_settles client connected later w d i s =
      rw (on_connecting-settled client connected w d i s) (
        connect_each_settled later (settled client connected w)
          (settled-initialized client connected w))
