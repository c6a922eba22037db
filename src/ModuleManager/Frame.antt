-- ===== src/ModuleManager/Frame.antt =====
-- What sending a message leaves alone.
use sacs.Prelude.{>>=-eq-ok, List, Text, [], arith, ok, ◌∷◌, ◌≡◌}
use sacs.Json.{JsonLib}
use sacs.ModuleManager.{handle_msg, push_all, push_msg_for_js}
use sacs.State.{Event, Task, World, emit, post}
use sacs.JsonMsg.{JsonMsg}
use sacs.Proxy.{handle_property_update}

module _ {J : JsonLib} where
  -- The registry, the thread, and what connects the process with others stay as they are.
  pub record SameRegistry (w w' : World J) : Type 0 where
    pub modules : w'.modules ≡ w.modules
    pub id_counter : w'.id_counter ≡ w.id_counter
    pub different_thread : w'.different_thread ≡ w.different_thread
    pub initialized : w'.initialized ≡ w.initialized
    pub has_server : w'.has_server ≡ w.has_server
    pub host : w'.host ≡ w.host
    pub remote_modules : w'.remote_modules ≡ w.remote_modules

  module _ (msg : Text) (w : World J) {w' : World J} where
    pub push_msg_for_js-SameRegistry : push_msg_for_js msg w ≡ ok w' → SameRegistry w w'
    unfolding push_msg_for_js
    push_msg_for_js-SameRegistry h = ground arith

    pub handle_msg-SameRegistry : handle_msg msg w ≡ ok w' → SameRegistry w w'
    unfolding handle_msg
    handle_msg-SameRegistry h = ground (arith, push_msg_for_js-SameRegistry)

  module _ {w w' : World J} where
    pub SameRegistry-trans :
        {w'' : World J} → SameRegistry w w' → SameRegistry w' w'' → SameRegistry w w''
    SameRegistry-trans s t = ground arith

  pub push_all-SameRegistry :
      (msgs : List Text) (w : World J) {w' : World J} → push_all msgs w ≡ ok w' → SameRegistry w w'
  unfolding push_all
  push_all-SameRegistry [] w h = ground arith
  push_all-SameRegistry (msg ∷ rest) w h =
      let (w₁, sent, h') = >>=-eq-ok (push_msg_for_js msg w) (push_all rest) h in
      SameRegistry-trans (push_msg_for_js-SameRegistry msg w sent)
        (push_all-SameRegistry rest w₁ h')

  pub handle_property_update-SameRegistry :
      (msg : JsonMsg J) (w : World J) {w' : World J}
      → handle_property_update msg w ≡ ok w'
      → SameRegistry w w'
  unfolding handle_property_update
  handle_property_update-SameRegistry msg w h = ground arith

  pub post_ok-SameRegistry :
      (t : Task J) (w : World J) {w' : World J} → ok (post t w) ≡ ok w' → SameRegistry w w'
  unfolding post
  post_ok-SameRegistry t w h = ground arith

  pub emit_ok-SameRegistry :
      (es : List Event) (w : World J) {w' : World J} → ok (emit es w) ≡ ok w' → SameRegistry w w'
  unfolding emit
  emit_ok-SameRegistry es w h = ground arith
