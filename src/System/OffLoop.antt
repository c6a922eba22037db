-- ===== src/System/OffLoop.antt =====
-- What the calls of other threads than the loop's do to the registry and the table.
use sacs.State.{World, post}
use sacs.Prelude.{Bool, List, Text, [], arith, ok, true, ℕ, ℤ, ◌≡◌, ◌⊎◌}
use sacs.Json.{JsonLib}
use sacs.JsonMsg.{JsonMsg}
use sacs.ModuleManager.{
  handle_msg, on_proxy_initialized, pass_update, save_list, unregister, update_properties,
  update_properties_msg,
}
use sacs.Proxy.Connection.{on_connecting, on_read, start_proxy_server}
use sacs.ProxyServer.Session.{read_property_update}

module _ {J : JsonLib} where
  -- Calls were posted, and nothing else that these threads or the loop rely on has changed.
  pub record Posts (w w' : World J) : Type 0 where
    pub modules : w'.modules ≡ w.modules
    pub id_counter : w'.id_counter ≡ w.id_counter
    pub different_thread : w'.different_thread ≡ w.different_thread
    pub remote_modules : w'.remote_modules ≡ w.remote_modules

  module _ (w : World J) {w' : World J} (off_loop : w.different_thread ≡ true) where
    pub unregister-Posts : (id : ℤ) → unregister id w ≡ ok w' → Posts w w'
    unfolding unregister post
    unregister-Posts id h = ground arith

    pub update_properties-Posts :
        (id : ℤ) (us : List (ℤ × Text)) → update_properties id us w ≡ ok w' → Posts w w'
    unfolding update_properties save_list handle_msg post
    update_properties-Posts id us h = ground arith

    pub on_read-Posts : (str : Text) → on_read str w ≡ ok w' → Posts w w'
    unfolding on_read pass_update post
    on_read-Posts str h = ground arith

    pub read_property_update-Posts :
        (client : ℕ) (msg : JsonMsg J) → read_property_update client msg w ≡ ok w' → Posts w w'
    unfolding read_property_update update_properties_msg save_list handle_msg post
    read_property_update-Posts client msg h = ground arith

    pub on_connecting-table :
        (client : ℕ) (connected kept : Bool)
        → on_connecting client connected w ≡ ok (kept, w')
        → (w'.modules ≡ w.modules)
          × (w'.id_counter ≡ w.id_counter)
          × (w'.different_thread ≡ w.different_thread)
          × ((w'.remote_modules ≡ w.remote_modules) ⊎ (w'.remote_modules ≡ []))
    unfolding on_connecting on_proxy_initialized start_proxy_server post
    on_connecting-table client connected kept h = ground arith
