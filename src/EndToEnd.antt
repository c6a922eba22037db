-- ===== src/EndToEnd.antt =====
-- The host and a process that is connected to it, together: what a web page applies to a module of
-- that process.
pub mod FromOwner
pub mod Hosting
pub mod Pages
pub mod Requests
pub mod Astray
pub mod Shown
use sacs.Prelude.{List, Text, [], arith, none, ok, refl, some, true, ℕ, ℤ, ◌++◌, ◌>>=◌, ◌∷◌, ◌≡◌}
use sacs.Maps.{assign, find}
use sacs.State.{World, pass_property_update, peer_sent, post}
use sacs.Proxy.Connection.{on_read}
use sacs.ModuleManager.Loop.{enter, perform, run_task}
use sacs.Json.{JsonLaws, JsonLib}
use sacs.JsonMsg.{JsonMsg, parse_msg, set_msg_id}
use sacs.Module.{Module, set_property_values}
use sacs.ModuleManager.{call_back, pass_update}
use sacs.ModuleManager.Delivery.{Applies, pass_update-calls_at, pass_update-forwards}

module _ {J : JsonLib} (L : JsonLaws J) where
  on_read_posts :
      (text : Text) (msg : JsonMsg J) (v : World J)
      → v.different_thread ≡ true
      → parse_msg J text ≡ ok (msg, true)
      → on_read text v ≡ ok (post (pass_property_update msg) v)
  unfolding on_read pass_update
  on_read_posts text msg v d e = ground arith

  -- A message with at least one update for a module of another process: the module has no callback,
  -- the proxy server runs, its table leads to a client that is there, the updates can be saved on
  -- both sides, and the message with its id set anew can be dumped. Then the host saves the updates
  -- and sends one text to the owner. The owner, when it reads that text off its loop and the loop
  -- comes to the task, saves the same updates under its own id of the module, and calls the
  -- module's callback once with them.
  pub apply_reaches_owner :
      {t : Text} {id : ℤ} {m : Module} {u : ℤ × Text} {us : List (ℤ × Text)} {msg : JsonMsg J}
      {w : World J} (a : Applies L t id m (u ∷ us) msg w) (remote_id client_id : ℤ) (client f : ℕ)
      (m' p p' : Module) (msg' : JsonMsg J) (text : Text) (v : World J)
      → m.callback ≡ none
      → w.has_server ≡ true
      → find id w.remote_modules ≡ some (remote_id, client_id)
      → w.net.get_client client_id ≡ some client
      → set_property_values m (u ∷ us) ≡ ok m'
      → set_msg_id J msg remote_id ≡ ok msg'
      → J.dump msg'.json ≡ some text
      → v.different_thread ≡ true
      → find remote_id v.modules ≡ some p
      → p.callback ≡ some f
      → set_property_values p (u ∷ us) ≡ ok p'
      → (pass_update msg w
          ≡ ok (record w {
            modules = assign id m' w.modules;
            events = w.events ++ peer_sent client text ∷ [];
          }))
        × ((do v₁ ← on_read text v; run_task (pass_property_update msg') v₁)
            ≡ ok (record v {
              modules = assign remote_id p' v.modules;
              posted = v.posted ++ pass_property_update msg' ∷ [];
              events = v.events ++ call_back f remote_id (u ∷ us) ∷ [];
            }))
  unfolding run_task perform post
  apply_reaches_owner {t = t} {u = u} {us = us} a remote_id client_id client f m' p p' msg' text v h
        server table there e set_to dumped d filed cb e' =
      let (sent, parsed, c) =
        pass_update-forwards L a remote_id client_id client m' msg' text h server table there e
          set_to dumped in
      let v₁ = enter (post (pass_property_update msg') v) in
      let b : Applies L t remote_id p (u ∷ us) msg' v₁ = record {
        carries = c;
        kind = a.kind;
        on_loop = refl;
        filed = filed;
      } in
      (sent, rw (on_read_posts text msg' v d parsed, pass_update-calls_at L b f cb e') (rw d refl))
