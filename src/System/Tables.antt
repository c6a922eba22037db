-- ===== src/System/Tables.antt =====
-- What holds of the table of remote modules in every state that the threads can reach.
use sacs.Maps.{erase, erase-IsSorted, find}
use sacs.State.{Net, World, post, unregister_module}
use sacs.Prelude.{
  >>=-eq-ok, Bool, [], arith, inl, inr, map, ok, ok_subst, refl, sym, ℕ, ℤ, ◌++◌, ◌∙◌, ◌∷◌, ◌≡◌,
  ◌≢◌, ◌≤◌,
}
use sacs.Json.{JsonLib}
use sacs.JsonMsg.{JsonMsg, MsgType, find_id, module_add, module_del, property_update}
use sacs.ModuleManager.{init}
use sacs.ModuleManager.Registry.{Registered, Registered-at}
use sacs.Proxy.Connection.{on_connecting}
use sacs.ProxyServer.{local_id_from_remote, remove_module}
use sacs.ProxyServer.Closing.{
  locals, on_client_closed_lem, others, others-IsSorted, unregister_posts,
}
use sacs.ProxyServer.Session.{on_client_closed, read_as, read_module_del}
use sacs.ServerImpl.{add_event_listener, remove_event_listener}
use sacs.System.{
  Reach, Reading, Step, announces, asks, closes, connects, files, idle, later, leaves, opens, reads,
  reads_host, registers, registers_own, runs, start, unregisters, updates,
}
use sacs.System.Consistent.{
  Consistent, Consistent-Shrinks, Posts-Shrinks, Shrinks, add_module-Consistent,
  do_register_module-Consistent, find-erase-kept, find-others-kept, post-Posts, run_task-Shrinks,
  same_table, table_loses,
}
use sacs.System.OffLoop.{
  on_connecting-table, on_read-Posts, read_property_update-Posts, unregister-Posts,
  update_properties-Posts,
}

module _ {J : JsonLib} where
  read_as-Shrinks :
      (t : MsgType) (client : ℕ) (msg : JsonMsg J) (w : World J) {w' : World J}
      → Consistent w idle
      → t ≢ module_add
      → read_as t [] client msg w ≡ ok w'
      → Shrinks w w'
  unfolding read_as read_module_del post remove_module
  read_as-Shrinks module_add client msg w c n h = absurd (n refl)
  read_as-Shrinks module_del client msg w c n h =
      let (rid, found, h₁) = >>=-eq-ok (find_id J msg) _ h in
      let l = local_id_from_remote rid (w.net.get_id client) w.remote_modules in
      ok_subst (Shrinks w) (rw (unregister_posts l w c.off_loop) at h₁) (
        table_loses w idle (w.posted ++ unregister_module l ∷ []) (erase l w.remote_modules) c
          (erase-IsSorted l w.remote_modules c.sorted)
          (λ k x. find-erase-kept l k x w.remote_modules))
  read_as-Shrinks property_update client msg w {w'} c n h =
      Posts-Shrinks w w' idle c (read_property_update-Posts w c.off_loop client msg h)
  read_as-Shrinks _ client msg w c n h =
      ok_subst (Shrinks w) h (same_table w w c.sorted c.off_loop c.registered (omega arith) refl)

  on_client_closed-Shrinks :
      (client : ℕ) (w : World J) {w' : World J}
      → Consistent w idle
      → on_client_closed client w ≡ ok w'
      → Shrinks w w'
  on_client_closed-Shrinks client w c h =
      let id = w.net.get_id client in
      ok_subst (Shrinks w) (sym (on_client_closed_lem client w c.off_loop) ∙ h) (
        table_loses w idle (w.posted ++ map unregister_module (locals id w.remote_modules))
          (others id w.remote_modules) c (others-IsSorted id w.remote_modules c.sorted)
          (λ k x. find-others-kept id k x w.remote_modules c.sorted))

  on_connecting-Shrinks :
      (r : Reading) (client : ℕ) (connected kept : Bool) (w : World J) {w' : World J}
      → Consistent w r
      → on_connecting client connected w ≡ ok (kept, w')
      → Shrinks w w'
  unfolding find
  on_connecting-Shrinks r client connected kept w {w'} c h =
      let (m, n, d, t) = on_connecting-table w c.off_loop client connected kept h in
      let reg : Registered w' = Registered-at m n c.registered in
      let le : w.id_counter ≤ w'.id_counter = omega (arith, n) in
      elim t [
        | inl e ↦ same_table w w' c.sorted (d ∙ c.off_loop) reg le e
        | inr e ↦ record {
          off_loop = d ∙ c.off_loop;
          registered = reg;
          counts = le;
          sorted = rw e tt;
          kept = λ k x h. cc (rw e at h);
        }
      ]

  Step-Consistent :
      (w : World J) (r : Reading) (w' : World J) (r' : Reading)
      → Step w r w' r'
      → Consistent w r
      → Consistent w' r'
  unfolding add_event_listener remove_event_listener
  Step-Consistent w r w' _ (registers_own _ name props callback) c =
      Consistent-Shrinks w w' r (Posts-Shrinks w w' r c (post-Posts _ w)) c
  Step-Consistent w r w' _ (unregisters _ id h) c =
      Consistent-Shrinks w w' r (Posts-Shrinks w w' r c (unregister-Posts w c.off_loop id h)) c
  Step-Consistent w r w' _ (updates _ id us h) c =
      Consistent-Shrinks w w' r
        (Posts-Shrinks w w' r c (update_properties-Posts w c.off_loop id us h)) c
  Step-Consistent w r w' _ (opens _ client listeners h) c =
      Consistent-Shrinks w w' r
        (same_table w w' c.sorted c.off_loop (Registered-at refl refl c.registered) (omega arith)
          refl)
        c
  Step-Consistent w r w' _ (leaves _ client listeners h) c =
      Consistent-Shrinks w w' r
        (same_table w w' c.sorted c.off_loop (Registered-at refl refl c.registered) (omega arith)
          refl)
        c
  Step-Consistent w r w' _ (asks _ str msg h) c =
      Consistent-Shrinks w w' r (Posts-Shrinks w w' r c (post-Posts _ w)) c
  Step-Consistent w r w' _ (connects _ client connected kept h) c =
      Consistent-Shrinks w w' r (on_connecting-Shrinks r client connected kept w c h) c
  Step-Consistent w r w' _ (reads_host _ str h) c =
      Consistent-Shrinks w w' r (Posts-Shrinks w w' r c (on_read-Posts w c.off_loop str h)) c
  Step-Consistent w r w' r' (announces client str msg m _ _ _) c = record {
    off_loop = c.off_loop;
    registered = c.registered;
    sorted = c.sorted;
    below = c.below;
    reading = tt;
  }
  Step-Consistent w r w' r' (files l rid cid) c = add_module-Consistent l rid cid w c
  Step-Consistent w r w' r' (reads client str msg _ n h) c =
      Consistent-Shrinks w w' idle (read_as-Shrinks msg.type client msg w c n h) c
  Step-Consistent w r w' r' (closes client h) c =
      Consistent-Shrinks w w' idle (on_client_closed-Shrinks client w c h) c
  Step-Consistent w r w' _ (runs _ before after t e h) c =
      Consistent-Shrinks w w' r (run_task-Shrinks w w' r (before ++ after) t c h) c
  Step-Consistent w r w' r' (registers m rid cid id h) c =
      do_register_module-Consistent m rid cid id w _ c h

  init-Consistent : (port : ℤ) (net : Net) → Consistent (init {J = J} port net) idle
  unfolding find
  init-Consistent port net = record {
    off_loop = refl;
    registered = record {
      sorted = tt;
      own_id = λ k m h. cc;
      from_0 = λ k m h. cc;
      below = λ k m h. cc;
    };
    sorted = tt;
    below = λ k x h. cc;
    reading = tt;
  }

  -- In every world that a process can reach from its start, whatever the interleaving of its
  -- threads and whatever its clients send: between two steps no thread is on the loop, the registry
  -- is in order, and the table of the proxy server is sorted, and its local ids were given out by
  -- the counter. Until the network thread files a module that it has registered, the id of that
  -- module was given out by the counter, and is above all local ids in the table.
  pub Reach-Consistent :
      (port : ℤ) (net : Net) (w : World J) (r : Reading) → Reach port net w r → Consistent w r
  Reach-Consistent port net w r start = init-Consistent port net
  Reach-Consistent port net w' r' (later {w = w} {r = r} reach step) =
      Step-Consistent w r w' r' step (Reach-Consistent port net w r reach)
