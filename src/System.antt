-- ===== src/System.antt =====
-- A process with all its threads: the thread of the loop, the network threads, and the threads of the
-- program. A step is what one of them does between two waits. The calls in `posted` are those that the
-- loop has not run, and it may take any of them.
pub mod OffLoop
pub mod Consistent
pub mod Tables
pub mod Filing
pub mod Draining
pub mod Isolation
use sacs.Maps.{Map}
use sacs.State.{Net, Task, World, post, process_js_request, register_module}
use sacs.Prelude.{Bool, List, Option, Text, [], ok, some, true, ℕ, ℤ, ◌++◌, ◌∷◌, ◌≡◌, ◌≢◌}
use sacs.Json.{JsonLib}
use sacs.JsonMsg.{JsonMsg, module_add, parse_msg, to_module}
use sacs.Module.{Module, Property, new_module}
use sacs.ModuleManager.{do_register_module, init, unregister, update_properties}
use sacs.ModuleManager.Loop.{enter, leave, run_task}
use sacs.Proxy.Connection.{on_connecting, on_read}
use sacs.ProxyServer.{add_module}
use sacs.ProxyServer.Session.{on_client_closed, read_as}
use sacs.ServerImpl.{on_ws_client_closed, on_ws_client_connected}

-- Where the network thread stands in the case of MODULE_ADD in ProxyServer::OnClientRead: not in it;
-- in the wait of RegisterModule, whose call it has posted; or before AddModule. The numbers are the
-- local id, the remote id and the client's.
pub data Reading : Type 0 where
  idle : Reading
  waiting : Module → ℤ → ℤ → Reading
  given : ℤ → ℤ → ℤ → Reading

module _ {J : JsonLib} where
  -- The first world and reading are before the step, and the others behind it.
  pub data Step (w : World J) : Reading → World J → Reading → Type 0 where
    -- The program
    registers_own :
        (r : Reading) (name : Text) (props : List Property) (callback : Option ℕ)
        → Step w r (post (register_module (new_module name props callback)) w) r
    unregisters : (r : Reading) (id : ℤ) {w' : World J} → unregister id w ≡ ok w' → Step w r w' r
    updates :
        (r : Reading) (id : ℤ) (us : List (ℤ × Text)) {w' : World J}
        → update_properties id us w ≡ ok w'
        → Step w r w' r
    -- Web pages
    opens :
        (r : Reading) (client : ℕ) (listeners : Map ℕ)
        → w.server_impl ≡ some listeners
        → Step w r (on_ws_client_connected client listeners w).1 r
    leaves :
        (r : Reading) (client : ℕ) (listeners : Map ℕ)
        → w.server_impl ≡ some listeners
        → Step w r (on_ws_client_closed client listeners w) r
    asks :
        (r : Reading) (str : Text) (msg : JsonMsg J)
        → parse_msg J str ≡ ok (msg, true)
        → Step w r (post (process_js_request msg) w) r
    -- The connection of the proxy
    connects :
        (r : Reading) (client : ℕ) (connected kept : Bool) {w' : World J}
        → on_connecting client connected w ≡ ok (kept, w')
        → Step w r w' r
    reads_host : (r : Reading) (str : Text) {w' : World J} → on_read str w ≡ ok w' → Step w r w' r
    -- The clients of the proxy server
    announces :
        (client : ℕ) (str : Text) (msg : JsonMsg J) (m : Module)
        → parse_msg J str ≡ ok (msg, true)
        → msg.type ≡ module_add
        → to_module J msg ≡ ok (some m)
        → Step w idle w (waiting m m.id (w.net.get_id client))
    files :
        (local_id remote_id client_id : ℤ)
        → Step w
            (given local_id remote_id client_id)
            (record w { remote_modules = add_module local_id remote_id client_id w.remote_modules })
            idle
    reads :
        (client : ℕ) (str : Text) (msg : JsonMsg J) {w' : World J}
        → parse_msg J str ≡ ok (msg, true)
        → msg.type ≢ module_add
        → read_as msg.type [] client msg w ≡ ok w'
        → Step w idle w' idle
    closes : (client : ℕ) {w' : World J} → on_client_closed client w ≡ ok w' → Step w idle w' idle
    -- The loop
    runs :
        (r : Reading) (before after : List (Task J)) (t : Task J) {w' : World J}
        → w.posted ≡ before ++ t ∷ after
        → run_task t (record w { posted = before ++ after }) ≡ ok w'
        → Step w r w' r
    registers :
        (m : Module) (remote_id client_id id : ℤ) {w' : World J}
        → do_register_module m (enter w) ≡ ok (id, w')
        → Step w (waiting m remote_id client_id) (leave w') (given id remote_id client_id)

  pub data Reach (port : ℤ) (net : Net) : World J → Reading → Type 0 where
    start : Reach port net (init port net) idle
    later :
        {w w' : World J} {r r' : Reading}
        → Reach port net w r
        → Step w r w' r'
        → Reach port net w' r'
