-- ===== src/ProxyServer.antt =====
-- ProxyServer.h and ProxyServer.cpp: the table of the modules of other processes, and the way back to
-- them. What a connected process sends is handled in `Session`.
pub mod Table
pub mod Session
pub mod Relay
pub mod Closing
pub mod Arrival
use sacs.Prelude.{
  Result, [], if◌then◌else◌, negsuc, none, ok, pos, some, ℤ, ◌&&◌, ◌-◌, ◌==ℤ◌, ◌>>=◌, ◌^◌, ◌∷◌,
}
use sacs.Maps.{Map, erase, find, insert}
use sacs.Json.{JsonLib}
use sacs.JsonMsg.{JsonMsg, find_id, set_msg_id, to_string}
use sacs.State.{World, emit, peer_sent}

abbrev pub Remote : Type 0
Remote = ℤ × ℤ

-- ProxyServer::AddModule, in the parameter order of ProxyServer.cpp
unfoldable pub add_module : ℤ → ℤ → ℤ → Map Remote → Map Remote
add_module local_id remote_id client_id = insert local_id (remote_id, client_id)

-- ProxyServer::RemoveModule
unfoldable pub remove_module : ℤ → Map Remote → Map Remote
remove_module = erase

-- ProxyServer::LocalIdFromRemote
unfoldable pub local_id_from_remote : ℤ → ℤ → Map Remote → ℤ
local_id_from_remote remote_id client_id [] = negsuc 0
local_id_from_remote remote_id client_id ((local_id, (remote, client)) ∷ rest) =
    let later = local_id_from_remote remote_id client_id rest in
    if (remote ==ℤ remote_id) && (client ==ℤ client_id) then local_id else later

-- The uint32_t that -1 becomes.
abbrev pub no_client : ℤ
no_client = pos (2 ^ 32 - 1)

-- ProxyServer::RemoteIdFromLocal
unfoldable pub remote_id_from_local : ℤ → Map Remote → Remote
remote_id_from_local local_id table = elim (find local_id table) [
  | some remote ↦ remote
  | none ↦ (negsuc 0, no_client)
]

module _ {J : JsonLib} where
  -- ProxyServer::HandlePropertyUpdate
  unfoldable pub send_to_peer : JsonMsg J → World J → Result (World J)
  unfolding remote_id_from_local emit
  send_to_peer msg w = do
    local_id ← find_id J msg
    let (remote_id, client_id) = remote_id_from_local local_id w.remote_modules
    elim (w.net.get_client client_id) [
      | none ↦ ok w
      | some client ↦ (do
        msg' ← set_msg_id J msg remote_id
        text ← to_string J msg'
        ok (emit (peer_sent client text ∷ []) w))
    ]
