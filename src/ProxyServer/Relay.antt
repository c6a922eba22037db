-- ===== src/ProxyServer/Relay.antt =====
-- What the messages of a connected process do to the host. They come on the network thread.
use sacs.Prelude.{
  List, Text, [], append_assoc, arith, codes, ok, ok_subst_fst, refl, some, sym, text_eq, true, ℕ,
  ℤ, ◌++◌, ◌∙◌, ◌∷◌, ◌≡◌,
}
use sacs.State.{Task, World, handle_message, post, save_properties_list, unregister_module}
use sacs.Json.{JsonLaws, JsonLib}
use sacs.JsonMsg.{JsonMsg, detect_type, get_properties_list, parse_msg, set_msg_id, to_string}
use sacs.JsonMsg.Build.{create_module_removed, create_property_updated}
use sacs.JsonMsg.RoundTrip.{
  Carries, create_module_removed-find_id, create_property_updated-Carries, find_id-Carries,
  get_properties_list-Carries, parse_msg-to_string, set_msg_id-Carries_ok,
}
use sacs.ModuleManager.{handle_msg, save_list, update_properties_msg}
use sacs.ProxyServer.{local_id_from_remote, remove_module}
use sacs.ProxyServer.Closing.{unregister_posts}
use sacs.ProxyServer.Session.{on_client_read, read_module_del, read_property_update}

module _ {J : JsonLib} where
  open J use {Json, dump}

  pub update_properties_msg_posts :
      (id : ℤ) (msg : JsonMsg J) (us : List (ℤ × Text)) (text : Text) (w : World J)
      → w.different_thread ≡ true
      → get_properties_list J msg ≡ ok (msg, us)
      → to_string J msg ≡ ok text
      → update_properties_msg id msg w
        ≡ ok (record w {
          posted = w.posted ++ save_properties_list id us ∷ handle_message text ∷ [];
        })
  unfolding update_properties_msg save_list handle_msg post
  update_properties_msg_posts id msg us text w d listed sent = ground (
    arith,
    listed,
    sent,
    append_assoc w.posted (save_properties_list id us ∷ []) (handle_message text ∷ []),
  )

  module _ (L : JsonLaws J) (client : ℕ) (meanwhile : List (Task J)) (w : World J)
      (on_network : w.different_thread ≡ true) where
    -- The local id of a module of this client.
    abbrev pub local_of : ℤ → ℤ
    local_of remote_id = local_id_from_remote remote_id (w.net.get_id client) w.remote_modules

    -- When a text that CreatePropertyUpdated made comes from a process on the network thread, and
    -- the message with its id set to the local id can be dumped, the host posts to save the updates
    -- under the local id, and to pass on a text that parses to the same updates under the local id.
    pub on_client_read-property_update :
        (remote_id : ℤ) (us : List (ℤ × Text)) (s text : Text) (msg msg' : JsonMsg J)
        → create_property_updated J remote_id us ≡ ok s
        → parse_msg J s ≡ ok (msg, true)
        → set_msg_id J msg (local_of remote_id) ≡ ok msg'
        → dump msg'.json ≡ some text
        → (on_client_read meanwhile client s w
            ≡ ok (record w {
              posted =
                  w.posted
                  ++ save_properties_list (local_of remote_id) us ∷ handle_message text ∷ [];
            }))
          × (parse_msg J text ≡ ok (msg', true))
          × Carries L (codes "property_update") (local_of remote_id) us msg'
    unfolding on_client_read read_property_update detect_type to_string text_eq
    on_client_read-property_update remote_id us s text msg msg' h read set_to dumped =
        let (x, parsed, cx) = create_property_updated-Carries L remote_id us s h in
        let c : Carries L (codes "property_update") remote_id us msg =
          ok_subst_fst (Carries L (codes "property_update") remote_id us) (sym parsed ∙ read) cx in
        let c' = set_msg_id-Carries_ok L c (local_of remote_id) set_to in
        let sent : to_string J msg' ≡ ok text = ground (arith, c'.valid) in
        (
          ground (
            arith,
            read,
            c.kind,
            find_id-Carries L c refl,
            set_to,
            update_properties_msg_posts (local_of remote_id) msg' us text w on_network
                (get_properties_list-Carries L c' refl) sent,
          ),
          parse_msg-to_string L c' text sent,
          c',
        )

    -- When a text that CreateModuleRemoved made comes from a process on the network thread, the
    -- host posts to unregister the module that it stands for, and takes it out of the table.
    pub on_client_read-module_removed :
        (remote_id : ℤ) (s : Text)
        → create_module_removed J remote_id ≡ ok s
        → on_client_read meanwhile client s w
          ≡ ok (record w {
            posted = w.posted ++ unregister_module (local_of remote_id) ∷ [];
            remote_modules = remove_module (local_of remote_id) w.remote_modules;
          })
    unfolding on_client_read read_module_del post
    on_client_read-module_removed remote_id s h =
        let (msg, parsed, kind, found) = create_module_removed-find_id L remote_id s h in
        ground (arith, parsed, kind, found, unregister_posts (local_of remote_id) w on_network)
