-- ===== src/System/Filing.antt =====
-- The step from the registration of a remote module to its entry in the table.
use sacs.Maps.{IsSorted, Map, assign, insert-IsSorted, insert-last}
use sacs.Prelude.{
  List, Text, [], arith, if◌then◌else◌, negsuc, none, ok, subst, sym, true, ℤ, ◌++◌, ◌==ℤ◌, ◌∙◌,
  ◌∷◌, ◌≡◌,
}
use sacs.Json.{JsonLaws, JsonLib}
use sacs.JsonMsg.{JsonMsg}
use sacs.JsonMsg.RoundTrip.{find_id-Carries}
use sacs.Module.{Module, set_property_values}
use sacs.ModuleManager.{deliver, pass_update, save_list}
use sacs.ModuleManager.Delivery.{Applies, pass_update-deliver}
use sacs.ModuleManager.Loop.{enter}
use sacs.Proxy.{handle_property_update}
use sacs.ProxyServer.{
  Remote, add_module, local_id_from_remote, no_client, remote_id_from_local, send_to_peer,
}
use sacs.ProxyServer.Table.{add_module-find, has_remote, local_id_from_remote-append}
use sacs.State.{Net, World}
use sacs.System.{Reach, given}
use sacs.System.Tables.{Reach-Consistent}
use sacs.System.Consistent.{AllBelow-find}

module _ {J : JsonLib} (port : ℤ) (net : Net) (w : World J) (l r c : ℤ)
    (reach : Reach port net w (given l r c)) where
  -- In any world that a process can reach in which the network thread is about to file a module
  -- that it has registered: the new entry comes last, and the table stays sorted. The lookup by the
  -- local id then leads to the remote id and the client, and that of any other id is as before. The
  -- lookup by a remote id and a client is as before where the table has an entry for them, also
  -- where they are those of the module that was filed; where it has none, it leads to the new local
  -- id if they are, and is -1 if not.
  pub reached_filing :
      (let t = w.remote_modules in
        let t' = add_module l r c t in
        (t' ≡ t ++ (l, (r, c)) ∷ [])
        × IsSorted t'
        × ((k : ℤ)
            → remote_id_from_local k t' ≡ (if k ==ℤ l then (r, c) else remote_id_from_local k t))
        × ((r' c' : ℤ)
            → local_id_from_remote r' c' t' ≡ (
                if has_remote r' c' t
                then local_id_from_remote r' c' t
                else if has_remote r' c' ((l, (r, c)) ∷ [])
                then l
                else negsuc 0)))
  unfolding add_module remote_id_from_local
  reached_filing =
      let k = Reach-Consistent port net w (given l r c) reach in
      let t = w.remote_modules in
      let free = AllBelow-find l t k.reading.0 in
      let last : add_module l r c t ≡ t ++ (l, (r, c)) ∷ [] =
        insert-last l (r, c) t k.sorted k.reading.0 in
      (
        last,
        insert-IsSorted l (r, c) t k.sorted,
        λ j. ground (arith, add_module-find l r c j t k.sorted free),
        λ r' c'.
            subst
              (λ (t' : Map Remote). local_id_from_remote r' c' t' ≡ (
                if has_remote r' c' t
                then local_id_from_remote r' c' t
                else if has_remote r' c' ((l, (r, c)) ∷ [])
                then l
                else negsuc 0))
              (sym last) (local_id_from_remote-append r' c' l (r, c) t),
      )

  -- In any world that a process can reach in which the network thread is about to file a module
  -- that it has registered: where the proxy server runs, no client has the id that -1 becomes, and
  -- the module has no callback, a message with at least one update for that module, which can be
  -- saved, is saved by the loop and goes to nobody.
  pub reached_update_lost :
      (L : JsonLaws J) {t : Text} {m : Module} {u : ℤ × Text} {us : List (ℤ × Text)}
      {msg : JsonMsg J} (a : Applies L t l m (u ∷ us) msg (enter w)) (m' : Module)
      → m.callback ≡ none
      → w.has_server ≡ true
      → w.net.get_client no_client ≡ none
      → set_property_values m (u ∷ us) ≡ ok m'
      → pass_update msg (enter w) ≡ ok (record (enter w) { modules = assign l m' w.modules })
  unfolding deliver save_list handle_property_update send_to_peer remote_id_from_local
  reached_update_lost L {m = m} a m' none_here server nobody saved =
      let k = Reach-Consistent port net w (given l r c) reach in
      let free = AllBelow-find l w.remote_modules k.reading.0 in
      pass_update-deliver L a.carries m (enter w) a.kind a.on_loop a.filed
      ∙ ground (arith, a.filed, saved, find_id-Carries L a.carries a.kind, free)
