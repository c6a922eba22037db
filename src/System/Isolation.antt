-- ===== src/System/Isolation.antt =====
-- Which modules a connected process can reach through the host.
use sacs.Maps.{IsSorted, Map, find}
use sacs.State.{Net, Task, World, handle_message, post, save_properties_list, unregister_module}
use sacs.Prelude.{
  >>=-eq-ok, List, Text, [], append-nil, append_assoc, arith, inl, inr, negsuc, ok, ok_subst, refl,
  some, sym, true, ℕ, ℤ, ◌++◌, ◌∷◌, ◌≡◌, ◌≢◌, ◌⊎◌,
}
use sacs.Json.{JsonLib}
use sacs.JsonMsg.{
  JsonMsg, MsgType, find_id, get_properties_list, module_add, module_del, parse_msg,
  property_update, set_msg_id, to_string,
}
use sacs.ModuleManager.{handle_msg, save_list, update_properties_msg}
use sacs.ProxyServer.{Remote, local_id_from_remote}
use sacs.ProxyServer.Closing.{unregister_posts}
use sacs.ProxyServer.Session.{on_client_read, read_as, read_module_del, read_property_update}
use sacs.ProxyServer.Table.{local_id_from_remote-cases}
use sacs.System.{Reach, idle}
use sacs.System.Tables.{Reach-Consistent}

-- A local id of a module of this client, or the id of no module.
abbrev pub Own : ℤ → Map Remote → ℤ → Type 0
Own c table id = (id ≡ negsuc 0) ⊎ ((r : ℤ) × (find id table ≡ some (r, c)))

-- A call that is about a module of this client only, or shows a message to the pages.
abbrev pub OwnTask : {J : JsonLib} → ℤ → Map Remote → Task J → Type 0
OwnTask c table (unregister_module id) = Own c table id
OwnTask c table (save_properties_list id us) = Own c table id
OwnTask c table (handle_message text) = Unit {0}
OwnTask c table _ = ⊥

abbrev pub AllOwn : {J : JsonLib} → ℤ → Map Remote → List (Task J) → Type 0
AllOwn c table [] = Unit {0}
AllOwn c table (t ∷ ts) = OwnTask c table t × AllOwn c table ts

local_id_from_remote-Own :
    (r c : ℤ) (table : Map Remote) → IsSorted table → Own c table (local_id_from_remote r c table)
local_id_from_remote-Own r c table s = elim (local_id_from_remote-cases r c table s) [
  | inl found ↦ inr (r, found)
  | inr (none_there, _) ↦ inl none_there
]

module _ {J : JsonLib} where
  -- The calls that were posted, each about the client's own modules; the registry is as before.
  abbrev pub PostsOwn : ℤ → World J → World J → Type 0
  PostsOwn c w w' =
      (ts : List (Task J)) × (w'.posted ≡ w.posted ++ ts)
      × AllOwn c w.remote_modules ts
      × (w'.modules ≡ w.modules)

  save_list_handle_posts :
      (l : ℤ) (us : List (ℤ × Text)) (text : Text) (w w₁ : World J) {w' : World J}
      → w.different_thread ≡ true
      → save_list l us w ≡ ok w₁
      → handle_msg text w₁ ≡ ok w'
      → (w'.posted ≡ w.posted ++ save_properties_list l us ∷ handle_message text ∷ [])
        × (w'.modules ≡ w.modules)
  unfolding save_list handle_msg post
  save_list_handle_posts l us text w w₁ d saved sent =
      ground
        (arith, append_assoc w.posted (save_properties_list l us ∷ []) (handle_message text ∷ []))

  read_property_update-PostsOwn :
      (client : ℕ) (msg : JsonMsg J) (w : World J) {w' : World J}
      → w.different_thread ≡ true
      → IsSorted w.remote_modules
      → read_property_update client msg w ≡ ok w'
      → PostsOwn (w.net.get_id client) w w'
  unfolding read_property_update update_properties_msg
  read_property_update-PostsOwn client msg w {w'} d s h =
      let (rid, _, h₁) = >>=-eq-ok (find_id J msg) _ h in
      let c = w.net.get_id client in
      let l = local_id_from_remote rid c w.remote_modules in
      let (msg', _, h₂) = >>=-eq-ok (set_msg_id J msg l) _ h₁ in
      let (p, listed, h₃) = >>=-eq-ok (get_properties_list J msg') _ h₂ in
      let (w₁, saved, h₄) = >>=-eq-ok (save_list l p.1 w) _ h₃ in
      let (text, sent, h₅) = >>=-eq-ok (to_string J p.0) _ h₄ in
      let posted = save_list_handle_posts l p.1 text w w₁ d saved h₅ in
      (
        save_properties_list l p.1 ∷ handle_message text ∷ [],
        posted.0,
        (local_id_from_remote-Own rid c w.remote_modules s, (tt, tt)),
        posted.1,
      )

  read_module_del-PostsOwn :
      (client : ℕ) (msg : JsonMsg J) (w : World J) {w' : World J}
      → w.different_thread ≡ true
      → IsSorted w.remote_modules
      → read_module_del client msg w ≡ ok w'
      → PostsOwn (w.net.get_id client) w w'
  unfolding read_module_del post
  read_module_del-PostsOwn client msg w {w'} d s h =
      let (rid, _, h₁) = >>=-eq-ok (find_id J msg) _ h in
      let c = w.net.get_id client in
      let l = local_id_from_remote rid c w.remote_modules in
      ok_subst (PostsOwn c w) (rw (unregister_posts l w d) at h₁) (
        unregister_module l ∷ [],
        refl,
        (local_id_from_remote-Own rid c w.remote_modules s, tt),
        refl,
      )

  read_as-PostsOwn :
      (t : MsgType) (client : ℕ) (msg : JsonMsg J) (w : World J) {w' : World J}
      → w.different_thread ≡ true
      → IsSorted w.remote_modules
      → t ≢ module_add
      → read_as t [] client msg w ≡ ok w'
      → PostsOwn (w.net.get_id client) w w'
  unfolding read_as
  read_as-PostsOwn module_add client msg w d s n h = absurd (n refl)
  read_as-PostsOwn module_del client msg w d s n h = read_module_del-PostsOwn client msg w d s h
  read_as-PostsOwn property_update client msg w d s n h =
      read_property_update-PostsOwn client msg w d s h
  read_as-PostsOwn _ client msg w d s n h =
      ok_subst (PostsOwn (w.net.get_id client) w) h ([], sym (append-nil w.posted), tt, refl)

  -- In any world that a process can reach, when the network thread reads a text from a client that
  -- parses to a message of another kind than MODULE_ADD, and ends, then it has only posted calls
  -- that unregister or save a module of that client, or the id -1, or that show a message; the
  -- calls posted before, and the registry, are as before.
  pub reached_clients_isolated :
      (port : ℤ) (net : Net) (w w' : World J) (client : ℕ) (str : Text) (msg : JsonMsg J)
      → Reach port net w idle
      → parse_msg J str ≡ ok (msg, true)
      → msg.type ≢ module_add
      → on_client_read [] client str w ≡ ok w'
      → PostsOwn (w.net.get_id client) w w'
  unfolding on_client_read
  reached_clients_isolated port net w w' client str msg reach parsed n h =
      let c = Reach-Consistent port net w idle reach in
      read_as-PostsOwn msg.type client msg w c.off_loop c.sorted n (rw parsed at h)
