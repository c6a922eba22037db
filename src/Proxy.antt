-- ===== src/Proxy.antt =====
-- Proxy.h and Proxy.cpp: the messages that go through the proxy. What its connection reports is
-- handled in `Connection`.
pub mod Connection
pub mod Roles
use sacs.Prelude.{
  ℤ, negsuc, Result, Text, [], if◌then◌else◌, null_deref, ok, or_throw, throw, ◌>>=◌, ◌∷◌,
}
use sacs.Json.{JsonLib}
use sacs.JsonMsg.{JsonMsg}
use sacs.ProxyServer.{send_to_peer}
use sacs.State.{World, emit, host_sent}

-- Proxy::_port of a new proxy
abbrev pub no_port : ℤ
no_port = negsuc 0

module _ {J : JsonLib} where
  -- Proxy::Init. What becomes of the connection that it asks for is in `on_connecting`.
  abbrev pub proxy_init : ℤ → World J → World J
  proxy_init port w = record w { proxy_port = port }

  -- Proxy::PushMsgForJS, which uses `_client` without a test.
  unfoldable pub push_to_host : Text → World J → Result (World J)
  unfolding emit
  push_to_host msg w = do
    client ← or_throw null_deref w.host
    ok (emit (host_sent client msg ∷ []) w)

  -- Proxy::HandlePropertyUpdate, which uses `_server` without a test.
  unfoldable pub handle_property_update : JsonMsg J → World J → Result (World J)
  unfolding send_to_peer
  handle_property_update msg w = if w.has_server then send_to_peer msg w else throw null_deref
