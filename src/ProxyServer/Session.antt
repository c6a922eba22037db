-- ===== src/ProxyServer/Session.antt =====
-- ProxyServer.cpp: what the host does with a process that is connected to it. Its network thread is
-- not the thread of the loop, so that it waits for registrations and posts the rest.
use sacs.ModuleManager.Loop.{register}
use sacs.Prelude.{
  Bool, List, Result, Text, [], false, if◌then◌else◌, null_deref, ok, or_throw, true, ℕ, ℤ, ◌==ℤ◌,
  ◌>>=◌, ◌∷◌,
}
use sacs.Maps.{Map}
use sacs.Json.{JsonLib}
use sacs.JsonMsg.{
  JsonMsg, MsgType, find_id, module_add, module_del, parse_msg, property_update, set_msg_id,
  to_module,
}
use sacs.ModuleManager.{unregister, update_properties_msg}
use sacs.ProxyServer.{Remote, add_module, local_id_from_remote, remove_module}
use sacs.State.{Task, World}

module _ {J : JsonLib} where
  -- The case of MODULE_ADD in ProxyServer::OnClientRead, which uses the module without a test.
  unfoldable pub read_module_add : List (Task J) → ℕ → JsonMsg J → World J → Result (World J)
  unfolding add_module
  read_module_add meanwhile client msg w = do
    found ← to_module J msg
    m ← or_throw null_deref found
    (local_id, w') ← register meanwhile m w
    ok (record w' {
      remote_modules = add_module local_id m.id (w'.net.get_id client) w'.remote_modules;
    })

  -- The case of MODULE_DEL
  unfoldable pub read_module_del : ℕ → JsonMsg J → World J → Result (World J)
  unfolding local_id_from_remote remove_module
  read_module_del client msg w = do
    remote_id ← find_id J msg
    let id = local_id_from_remote remote_id (w.net.get_id client) w.remote_modules
    w' ← unregister id w
    ok (record w' { remote_modules = remove_module id w'.remote_modules })

  -- The case of PROPERTY_UPDATE
  unfoldable pub read_property_update : ℕ → JsonMsg J → World J → Result (World J)
  unfolding local_id_from_remote
  read_property_update client msg w = do
    remote_id ← find_id J msg
    let id = local_id_from_remote remote_id (w.net.get_id client) w.remote_modules
    msg' ← set_msg_id J msg id
    update_properties_msg id msg' w

  -- The switch of ProxyServer::OnClientRead
  unfoldable pub read_as : MsgType → List (Task J) → ℕ → JsonMsg J → World J → Result (World J)
  unfolding read_module_add read_module_del read_property_update
  read_as module_add meanwhile client msg w = read_module_add meanwhile client msg w
  read_as module_del meanwhile client msg w = read_module_del client msg w
  read_as property_update meanwhile client msg w = read_property_update client msg w
  read_as _ meanwhile client msg w = ok w

  -- ProxyServer::OnClientRead
  unfoldable pub on_client_read : List (Task J) → ℕ → Text → World J → Result (World J)
  unfolding read_as
  on_client_read meanwhile client str w = do
    (msg, parsed) ← parse_msg J str
    if parsed then read_as msg.type meanwhile client msg w else ok w

  -- The loop of ProxyServer::RemoveClientsModules: the entries that stay.
  unfoldable pub remove_each : ℤ → Map Remote → World J → Result (Map Remote × World J)
  remove_each client_id [] w = ok ([], w)
  remove_each client_id ((local_id, (remote, client)) ∷ rest) w = elim (client ==ℤ client_id) [
    | true ↦ (do w' ← unregister local_id w; remove_each client_id rest w')
    | false ↦ (do
      (kept, w') ← remove_each client_id rest w
      ok ((local_id, (remote, client)) ∷ kept, w'))
  ]

  -- ProxyServer::OnClientClosed and RemoveClientsModules
  unfoldable pub on_client_closed : ℕ → World J → Result (World J)
  unfolding remove_each
  on_client_closed client w = do
    (kept, w') ← remove_each (w.net.get_id client) w.remote_modules w
    ok (record w' { remote_modules = kept })

-- ProxyServer::OnClientConnecting: a client stays if its connection is made.
unfoldable pub on_client_connecting : Bool → Bool
on_client_connecting connected = if connected then true else false
