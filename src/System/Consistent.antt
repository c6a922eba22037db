-- ===== src/System/Consistent.antt =====
-- The registry and the table of remote modules in every interleaving.
use sacs.Maps.{IsSorted, Map, erase, find, find-erase, insert-IsSorted}
use sacs.State.{Task, World, post}
use sacs.Prelude.{
  ==ℤ_iff, List, Option-cases, arith, inl, inr, ltb_ℤ, ltb_ℤ_irrefl, none, ok, pos, refl, some,
  true, ℕ, ℤ, ◌∙◌, ◌≡◌, ◌≤◌,
}
use sacs.Json.{JsonLib}
use sacs.ModuleManager.Invariant.{run_task-Registered}
use sacs.ModuleManager.Loop.{enter, leave, run_task}
use sacs.ModuleManager.OnLoop.{do_register_module-TaskFrame, run_task-TaskFrame}
use sacs.ModuleManager.Registry.{Registered, Registered-at, do_register_module-Registers}
use sacs.ProxyServer.{Remote, add_module}
use sacs.ProxyServer.Closing.{drop_client, find-others, others}
use sacs.ProxyServer.Table.{add_module-find}
use sacs.System.{Reading, given, idle, waiting}
use sacs.System.OffLoop.{Posts}
use sacs.Module.{Module}
use sacs.ModuleManager.{do_register_module}

-- The local ids in the table are all below this one.
abbrev pub AllBelow : ℤ → Map Remote → Type 0
AllBelow l t = (k : ℤ) (x : Remote) → find k t ≡ some x → ltb_ℤ k l ≡ true

pub AllBelow-find : (l : ℤ) (t : Map Remote) → AllBelow l t → find l t ≡ none
AllBelow-find l t b = elim (Option-cases (find l t)) [
  | inl e ↦ e
  | inr (x, e) ↦ cc (b l x e, ltb_ℤ_irrefl l (pos 0))
]

ltb_ℤ_pos_mono : (k : ℤ) (a b : ℕ) → ltb_ℤ k (pos a) ≡ true → a ≤ b → ltb_ℤ k (pos b) ≡ true
ltb_ℤ_pos_mono k a b h le = ground arith

pub find-erase-kept :
    (l k : ℤ) (x : Remote) (t : Map Remote) → find k (erase l t) ≡ some x → find k t ≡ some x
find-erase-kept l k x t h = ground (arith, find-erase l k t)

pub find-others-kept :
    (c k : ℤ) (x : Remote) (t : Map Remote)
    → IsSorted t
    → find k (others c t) ≡ some x
    → find k t ≡ some x
unfolding drop_client
find-others-kept c k x t s h = ground (arith, find-others c k t s)

module _ {J : JsonLib} where
  -- What the network thread relies on before it files a module.
  abbrev pub ReadingOk : World J → Reading → Type 0
  ReadingOk w idle = Unit {0}
  ReadingOk w (waiting m r c) = Unit {0}
  ReadingOk w (given l r c) = AllBelow l w.remote_modules × (ltb_ℤ l (pos w.id_counter) ≡ true)

  -- Between two steps the registry is in order, and the table is sorted, and only has local ids
  -- that were given out.
  pub record Consistent (w : World J) (r : Reading) : Type 0 where
    pub off_loop : w.different_thread ≡ true
    pub registered : Registered w
    pub sorted : IsSorted w.remote_modules
    pub below : AllBelow (pos w.id_counter) w.remote_modules
    pub reading : ReadingOk w r

  -- The registry is in order, the counter has not gone back, and the table has no new entry.
  pub record Shrinks (w w' : World J) : Type 0 where
    pub off_loop : w'.different_thread ≡ true
    pub registered : Registered w'
    pub counts : w.id_counter ≤ w'.id_counter
    pub sorted : IsSorted w'.remote_modules
    pub kept :
        (k : ℤ) (x : Remote) → find k w'.remote_modules ≡ some x → find k w.remote_modules ≡ some x

  ReadingOk-Shrinks : (w w' : World J) (r : Reading) → Shrinks w w' → ReadingOk w r → ReadingOk w' r
  ReadingOk-Shrinks w w' idle s ok_r = tt
  ReadingOk-Shrinks w w' (waiting m r c) s ok_r = tt
  ReadingOk-Shrinks w w' (given l r c) s (last, lt) =
      (λ k x h. last k x (s.kept k x h), ltb_ℤ_pos_mono l w.id_counter w'.id_counter lt s.counts)

  pub Consistent-Shrinks :
      (w w' : World J) (r : Reading) → Shrinks w w' → Consistent w r → Consistent w' r
  Consistent-Shrinks w w' r s c = record {
    off_loop = s.off_loop;
    registered = s.registered;
    sorted = s.sorted;
    below =
        λ k x h. ltb_ℤ_pos_mono k w.id_counter w'.id_counter (c.below k x (s.kept k x h)) s.counts;
    reading = ReadingOk-Shrinks w w' r s c.reading;
  }

  -- The table stays as it is.
  pub same_table :
      (w w' : World J)
      → IsSorted w.remote_modules
      → w'.different_thread ≡ true
      → Registered w'
      → w.id_counter ≤ w'.id_counter
      → w'.remote_modules ≡ w.remote_modules
      → Shrinks w w'
  same_table w w' sorted d r le e = record {
    off_loop = d;
    registered = r;
    counts = le;
    sorted = rw e sorted;
    kept = λ k x h. rw e at h;
  }

  pub Posts-Shrinks : (w w' : World J) (r : Reading) → Consistent w r → Posts w w' → Shrinks w w'
  Posts-Shrinks w w' r c p =
      same_table w w' c.sorted (p.different_thread ∙ c.off_loop)
        (Registered-at p.modules p.id_counter c.registered) (omega (arith, p.id_counter))
        p.remote_modules

  pub post-Posts : (t : Task J) (w : World J) → Posts w (post t w)
  unfolding post
  post-Posts t w = record {
    modules = refl;
    id_counter = refl;
    different_thread = refl;
    remote_modules = refl;
  }

  pub run_task-Shrinks :
      (w w' : World J) (r : Reading) (ts : List (Task J)) (t : Task J)
      → Consistent w r
      → run_task t (record w { posted = ts }) ≡ ok w'
      → Shrinks w w'
  run_task-Shrinks w w' r ts t c h =
      let v = record w { posted = ts } in
      let f = run_task-TaskFrame t v c.off_loop h in
      let reg = run_task-Registered t v (Registered-at refl refl c.registered) h in
      same_table w w' c.sorted (f.different_thread ∙ c.off_loop) reg f.counts f.remote_modules

  -- The table loses entries.
  pub table_loses :
      (w : World J) (r : Reading) (ts : List (Task J)) (t : Map Remote)
      → Consistent w r
      → IsSorted t
      → ((k : ℤ) (x : Remote) → find k t ≡ some x → find k w.remote_modules ≡ some x)
      → Shrinks w (record w { remote_modules = t; posted = ts })
  table_loses w r ts t c sorted kept = record {
    off_loop = c.off_loop;
    registered = Registered-at refl refl c.registered;
    counts = omega arith;
    sorted = sorted;
    kept = kept;
  }

  pub do_register_module-Consistent :
      (m : Module) (rid cid id : ℤ) (w w' : World J)
      → Consistent w (waiting m rid cid)
      → do_register_module m (enter w) ≡ ok (id, w')
      → Consistent (leave w') (given id rid cid)
  do_register_module-Consistent m rid cid id w w' c h =
      let reg = do_register_module-Registers m (enter w) (Registered-at refl refl c.registered) h in
      let f = do_register_module-TaskFrame m (enter w) refl h in
      let s : Shrinks w (leave w') =
        same_table w (leave w') c.sorted refl (Registered-at refl refl reg.registered) f.counts
          f.remote_modules in
      let c' = Consistent-Shrinks w (leave w') (waiting m rid cid) s c in
      record {
        off_loop = refl;
        registered = c'.registered;
        sorted = c'.sorted;
        below = c'.below;
        reading =
            (rw (f.remote_modules, reg.given) c.below, rw (reg.given, reg.counted) (ground arith));
      }

  pub add_module-Consistent :
      (l rid cid : ℤ) (w : World J)
      → Consistent w (given l rid cid)
      → Consistent (record w { remote_modules = add_module l rid cid w.remote_modules }) idle
  add_module-Consistent l rid cid w c =
      let (last, lt) = c.reading in
      let free = AllBelow-find l w.remote_modules last in
      record {
        off_loop = c.off_loop;
        registered = Registered-at refl refl c.registered;
        sorted = unfold add_module in insert-IsSorted l (rid, cid) w.remote_modules c.sorted;
        below = λ k x h. ground (
          arith,
          add_module-find l rid cid k w.remote_modules c.sorted free,
          c.below k x,
          ==ℤ_iff k l,
        );
        reading = tt;
      }
