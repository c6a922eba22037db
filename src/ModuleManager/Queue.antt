-- ===== src/ModuleManager/Queue.antt =====
-- The messages for the web pages: those from before the connection is settled, and those from after.
use sacs.Prelude.{
  List, Result, Text, [], ap, append-nil, append_assoc, arith, false, map, map-append, none, ok,
  refl, some, true, ℕ, ◌++◌, ◌>>=◌, ◌∙◌, ◌∷◌, ◌≡◌,
}
use sacs.State.{World, emit, host_sent, web_server_started}
use sacs.Json.{JsonLib}
use sacs.ModuleManager.{handle_msg, on_proxy_initialized, push_all, push_msg_for_js, start_server}
use sacs.Proxy.{push_to_host}
use sacs.ServerImpl.{push_each_listener, push_to_pages}

module _ {J : JsonLib} where
  -- HandleMessage for each of a list of messages.
  unfoldable pub handle_each : List Text → World J → Result (World J)
  handle_each [] w = ok w
  handle_each (msg ∷ rest) w = do w' ← handle_msg msg w; handle_each rest w'

  -- The world of a client process `c`, in which `sent` has gone to the host.
  abbrev pub sent_to_host : ℕ → List Text → World J → World J
  sent_to_host c sent w = record w { events = w.events ++ map (host_sent c) sent }

  push_msg_for_js-host :
      (c : ℕ) (msg : Text) (w : World J)
      → w.host ≡ some c
      → w.server_impl ≡ none
      → push_msg_for_js msg w ≡ ok (sent_to_host c (msg ∷ []) w)
  unfolding push_msg_for_js push_to_host emit
  push_msg_for_js-host c msg w h s = ground arith

  sent_to_host-cons :
      (c : ℕ) (msg : Text) (rest : List Text) (w : World J)
      → sent_to_host c rest (sent_to_host c (msg ∷ []) w) ≡ sent_to_host c (msg ∷ rest) w
  sent_to_host-cons c msg rest w = rw append_assoc refl

  push_all-host :
      (c : ℕ) (msgs : List Text) (w : World J)
      → w.host ≡ some c
      → w.server_impl ≡ none
      → push_all msgs w ≡ ok (sent_to_host c msgs w)
  unfolding push_all push_msg_for_js push_to_host emit
  push_all-host c [] w h s = rw append-nil refl
  push_all-host c (msg ∷ rest) w h s = rw (push_msg_for_js-host c msg w h s) (
      push_all-host c rest (sent_to_host c (msg ∷ []) w) h s
      ∙ ap ok (sent_to_host-cons c msg rest w))

  handle_msg-queues :
      (msg : Text) (w : World J)
      → w.different_thread ≡ false
      → w.initialized ≡ false
      → handle_msg msg w ≡ ok (record w { msg_queue = w.msg_queue ++ msg ∷ [] })
  unfolding handle_msg
  handle_msg-queues msg w d i = ground arith

  handle_msg-push :
      (msg : Text) (w : World J)
      → w.different_thread ≡ false
      → w.initialized ≡ true
      → handle_msg msg w ≡ push_msg_for_js msg w
  unfolding handle_msg
  handle_msg-push msg w d i = ground arith

  handle_each-queues :
      (msgs : List Text) (w : World J)
      → w.different_thread ≡ false
      → w.initialized ≡ false
      → handle_each msgs w ≡ ok (record w { msg_queue = w.msg_queue ++ msgs })
  unfolding handle_each
  handle_each-queues [] w d i = rw append-nil refl
  handle_each-queues (msg ∷ rest) w d i = rw (handle_msg-queues msg w d i) (
      handle_each-queues rest (record w { msg_queue = w.msg_queue ++ msg ∷ [] }) d i
      ∙ rw append_assoc refl)

  handle_each-host :
      (c : ℕ) (msgs : List Text) (w : World J)
      → w.different_thread ≡ false
      → w.initialized ≡ true
      → w.host ≡ some c
      → w.server_impl ≡ none
      → handle_each msgs w ≡ ok (sent_to_host c msgs w)
  unfolding handle_each handle_msg push_msg_for_js push_to_host emit
  handle_each-host c [] w d i h s = rw append-nil refl
  handle_each-host c (msg ∷ rest) w d i h s =
      rw (handle_msg-push msg w d i, push_msg_for_js-host c msg w h s)
        (handle_each-host c rest (sent_to_host c (msg ∷ []) w) d i h s
          ∙ ap ok (sent_to_host-cons c msg rest w))

  client_mode :
      (c : ℕ) (w : World J)
      → w.different_thread ≡ false
      → w.host ≡ some c
      → w.server_impl ≡ none
      → on_proxy_initialized false w
        ≡ ok (record (sent_to_host c w.msg_queue w) { initialized = true; msg_queue = [] })
  unfolding on_proxy_initialized
  client_mode c w d h s =
      let started = record w { initialized = true } in
      ground (arith, push_all-host c w.msg_queue started h s)

  -- In a client process that has not been initialized and has no web server, every message handled
  -- on the thread of the loop goes to the host once and in the order in which it came, also those
  -- from before the connection was made; none is left in the queue.
  pub messages_in_order :
      (c : ℕ) (before after : List Text) (w : World J)
      → w.different_thread ≡ false
      → w.initialized ≡ false
      → w.server_impl ≡ none
      → (do
        w₁ ← handle_each before w
        w₂ ← on_proxy_initialized false (record w₁ { host = some c })
        handle_each after w₂)
        ≡ ok (record w {
          initialized = true;
          host = some c;
          msg_queue = [];
          events = w.events ++ map (host_sent c) (w.msg_queue ++ before ++ after);
        })
  messages_in_order c before after w d i s =
      let w₁ = record w { msg_queue = w.msg_queue ++ before; host = some c } in
      let w₂ = record (sent_to_host c w₁.msg_queue w₁) { initialized = true; msg_queue = [] } in
      rw
        (
          handle_each-queues before w d i,
          client_mode c w₁ d refl s,
          handle_each-host c after w₂ d refl refl s,
        )
        (simp (map-append, append_assoc))

  push_msg_for_js-no_page :
      (msg : Text) (w : World J) → w.server_impl ≡ some [] → push_msg_for_js msg w ≡ ok w
  unfolding push_msg_for_js push_each_listener
  push_msg_for_js-no_page msg w h = ground (arith, append-nil w.events)

  push_all-no_page :
      (msgs : List Text) (w : World J) → w.server_impl ≡ some [] → push_all msgs w ≡ ok w
  unfolding push_all push_msg_for_js push_to_pages push_each_listener emit
  push_all-no_page [] w h = refl
  push_all-no_page (msg ∷ rest) w h =
      rw (push_msg_for_js-no_page msg w h) (push_all-no_page rest w h)

  -- The host, on the thread of its loop, starts the web server with no page connected, so that the
  -- messages from before reach nobody and are dropped.
  pub host_mode_drops_queue :
      (w : World J)
      → w.different_thread ≡ false
      → on_proxy_initialized true w
        ≡ ok (record w {
          initialized = true;
          server_impl = some [];
          msg_queue = [];
          events = w.events ++ web_server_started w.port ∷ [];
        })
  unfolding on_proxy_initialized
  host_mode_drops_queue w d = ground (
    arith,
    push_all-no_page w.msg_queue (record (start_server true w) { initialized = true }) refl,
  )
