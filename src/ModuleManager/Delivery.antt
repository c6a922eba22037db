-- ===== src/ModuleManager/Delivery.antt =====
-- What becomes of the updates that a web page applies, on the thread of the loop.
use sacs.Prelude.{
  List, Text, [], arith, false, none, ok, out_of_range, some, throw, true, ℕ, ℤ, ◌++◌, ◌∙◌, ◌∷◌,
  ◌≡◌,
}
use sacs.Maps.{assign, find}
use sacs.State.{World, emit, peer_sent}
use sacs.Json.{JsonLaws, JsonLib}
use sacs.JsonMsg.{JsonMsg, carries_properties, detect_type, parse_msg, set_msg_id, to_string}
use sacs.JsonMsg.RoundTrip.{
  Carries, find_id-Carries, get_properties_list-Carries, parse_msg-to_string, set_msg_id-Carries_ok,
}
use sacs.Module.{Module, set_property_values}
use sacs.Module.Update.{Saved, non_negative, set_property_values-Saved, set_property_values-throws}
use sacs.ModuleManager.{call_back, deliver, pass_update, save_list}
use sacs.Proxy.{handle_property_update}
use sacs.ProxyServer.{remote_id_from_local, send_to_peer}

module _ {J : JsonLib} where
  open J use {Json, dump}

  save_list-throws :
      (id : ℤ) (m : Module) (us : List (ℤ × Text)) (w : World J)
      → w.different_thread ≡ false
      → find id w.modules ≡ some m
      → non_negative us ≡ false
      → save_list id us w ≡ throw out_of_range
  unfolding save_list
  save_list-throws id m us w d h n = ground (arith, set_property_values-throws m us n)

  module _ (L : JsonLaws J) {t : Text} {id : ℤ} {us : List (ℤ × Text)} {msg : JsonMsg J}
      (c : Carries L t id us msg) where
    pub pass_update-deliver :
        (m : Module) (w : World J)
        → carries_properties J (detect_type t) ≡ true
        → w.different_thread ≡ false
        → find id w.modules ≡ some m
        → pass_update msg w ≡ deliver id m msg us w
    unfolding pass_update
    pass_update-deliver m w k d h =
        ground (arith, find_id-Carries L c k, get_properties_list-Carries L c k)

  -- `m` is the module with this id, the loop's thread is at work, and the message carries updates.
  pub record Applies (L : JsonLaws J) (t : Text) (id : ℤ) (m : Module) (us : List (ℤ × Text))
      (msg : JsonMsg J) (w : World J) : Type 0 where
    pub carries : Carries L t id us msg
    pub kind : carries_properties J (detect_type t) ≡ true
    pub on_loop : w.different_thread ≡ false
    pub filed : find id w.modules ≡ some m

  module _ (L : JsonLaws J) {t : Text} {id : ℤ} {m : Module} {u : ℤ × Text} {us : List (ℤ × Text)}
      {msg : JsonMsg J} {w : World J} (a : Applies L t id m (u ∷ us) msg w) where
    pub pass_update-calls_at :
        (f : ℕ) {m' : Module}
        → m.callback ≡ some f
        → set_property_values m (u ∷ us) ≡ ok m'
        → pass_update msg w
          ≡ ok (record w {
            modules = assign id m' w.modules;
            events = w.events ++ call_back f id (u ∷ us) ∷ [];
          })
    unfolding deliver save_list emit
    pass_update-calls_at f h e =
        pass_update-deliver L a.carries m w a.kind a.on_loop a.filed
        ∙ ground (arith, a.on_loop, a.filed, e)

    -- Updates for a module with a callback, none of them at a negative index, are saved, and the
    -- callback is called once, with the id of the module and the updates in their order. Nothing
    -- else changes.
    pub pass_update-calls :
        (f : ℕ)
        → m.callback ≡ some f
        → non_negative (u ∷ us) ≡ true
        → (m' : Module) × Saved m (u ∷ us) m'
          × (pass_update msg w
              ≡ ok (record w {
                modules = assign id m' w.modules;
                events = w.events ++ call_back f id (u ∷ us) ∷ [];
              }))
    pass_update-calls f h n =
        let (m', e, s) = set_property_values-Saved m (u ∷ us) n in
        (m', s, pass_update-calls_at f h e)

    -- A negative index among the updates for a module that is there, which an update without an
    -- `id` has too, is an exception on the thread of the loop.
    pub pass_update-throws : non_negative (u ∷ us) ≡ false → pass_update msg w ≡ throw out_of_range
    unfolding deliver
    pass_update-throws n =
        pass_update-deliver L a.carries m w a.kind a.on_loop a.filed
        ∙ ground (arith, save_list-throws id m (u ∷ us) w a.on_loop a.filed n)

    -- Updates for a module without a callback, whose entry in the table leads to a client that is
    -- there, where the updates can be saved and the message with its id set anew can be dumped:
    -- they are saved, and one text goes to that client, which parses to the same updates under the
    -- id that the module has there. Nothing else changes.
    pub pass_update-forwards :
        (remote_id client_id : ℤ) (client : ℕ) (m' : Module) (msg' : JsonMsg J) (text : Text)
        → m.callback ≡ none
        → w.has_server ≡ true
        → find id w.remote_modules ≡ some (remote_id, client_id)
        → w.net.get_client client_id ≡ some client
        → set_property_values m (u ∷ us) ≡ ok m'
        → set_msg_id J msg remote_id ≡ ok msg'
        → dump msg'.json ≡ some text
        → (pass_update msg w
            ≡ ok (record w {
              modules = assign id m' w.modules;
              events = w.events ++ peer_sent client text ∷ [];
            }))
          × (parse_msg J text ≡ ok (msg', true))
          × Carries L t remote_id (u ∷ us) msg'
    unfolding deliver save_list handle_property_update send_to_peer remote_id_from_local to_string
        emit
    pass_update-forwards remote_id client_id client m' msg' text h server table there e set_to
          dumped =
        let c' = set_msg_id-Carries_ok L a.carries remote_id set_to in
        let sent : to_string J msg' ≡ ok text = ground (arith, c'.valid) in
        (
          pass_update-deliver L a.carries m w a.kind a.on_loop a.filed
              ∙ ground (
                arith,
                a.on_loop,
                a.filed,
                e,
                find_id-Carries L a.carries a.kind,
                set_to,
                c'.valid,
              ),
          parse_msg-to_string L c' text sent,
          c',
        )
