-- ===== src/ProxyServer/Closing.antt =====
-- What the host does when a process disconnects.
use sacs.Prelude.{
  Bool-cases, List, Option, [], append-nil, append_assoc, arith, if◌then◌else◌, inl, inr,
  ltb_ℤ_irrefl, map, none, ok, refl, some, true, ℕ, ℤ, ◌++◌, ◌==ℤ◌, ◌∷◌, ◌≡◌,
}
use sacs.Maps.{Above, Above-IsSorted, Above-weaken, IsSorted, Map, find, find-Above}
use sacs.Maps.{Above, Above-IsSorted, Above-weaken, IsSorted, Map, find, find-Above}
use sacs.State.{World, post, unregister_module}
use sacs.Json.{JsonLib}
use sacs.ProxyServer.{Remote}
use sacs.ProxyServer.Session.{on_client_closed, remove_each}
use sacs.ModuleManager.{unregister}

-- The local ids of a client's modules, in order.
abbrev pub locals : ℤ → Map Remote → List ℤ
locals c [] = []
locals c ((l, (r, cl)) ∷ t) = if cl ==ℤ c then l ∷ locals c t else locals c t

-- The entries of the other clients, in order.
abbrev pub others : ℤ → Map Remote → Map Remote
others c [] = []
others c ((l, (r, cl)) ∷ t) = if cl ==ℤ c then others c t else (l, (r, cl)) ∷ others c t

module _ {J : JsonLib} where
  -- Off the loop's thread, the end of a module is posted, and nothing else happens.
  pub unregister_posts :
      (l : ℤ) (w : World J)
      → w.different_thread ≡ true
      → unregister l w ≡ ok (post (unregister_module l) w)
  unfolding unregister
  unregister_posts l w h = rw h refl

  remove_each_lem :
      (c : ℤ) (t : Map Remote) (w : World J)
      → w.different_thread ≡ true
      → remove_each c t w
        ≡ ok (others c t, record w { posted = w.posted ++ map unregister_module (locals c t) })
  unfolding remove_each post
  remove_each_lem c [] w h = rw append-nil refl
  remove_each_lem c ((l, (r, cl)) ∷ t) w h = elim (Bool-cases (cl ==ℤ c)) [
    | inl e ↦
        rw (e, remove_each, unregister_posts l w h)
          (rw (remove_each_lem c t (post (unregister_module l) w) h, append_assoc) refl)
    | inr e ↦ rw (e, remove_each) (rw (remove_each_lem c t w h) refl)
  ]

  -- A client that goes, as seen off the loop's thread, takes its own modules out of the table, and
  -- no other, and each of these is posted to be unregistered, in order. Nothing else changes.
  pub on_client_closed_lem :
      (client : ℕ) (w : World J)
      → w.different_thread ≡ true
      → let c = w.net.get_id client in
        on_client_closed client w
        ≡ ok (record w {
          remote_modules = others c w.remote_modules;
          posted = w.posted ++ map unregister_module (locals c w.remote_modules);
        })
  unfolding on_client_closed
  on_client_closed_lem client w h =
      rw (remove_each_lem (w.net.get_id client) w.remote_modules w h) refl

unfoldable pub drop_client : ℤ → Option Remote → Option Remote
drop_client c none = none
drop_client c (some x) = if x.1 ==ℤ c then none else some x

find-others-Above :
    (c b k : ℤ) (t : Map Remote) → Above b t → find k (others c t) ≡ drop_client c (find k t)
unfolding find drop_client
find-others-Above c b k [] s = refl
find-others-Above c b k ((l, (r, cl)) ∷ t) s =
    ground (arith, find-others-Above c l k t s.1, find-Above l k t s.1, ltb_ℤ_irrefl l l)

-- What is left in a sorted table is what it held of the other clients, under the same ids.
pub find-others :
    (c k : ℤ) (t : Map Remote) → IsSorted t → find k (others c t) ≡ drop_client c (find k t)
unfolding find drop_client
find-others c k [] s = refl
find-others c k ((l, (r, cl)) ∷ t) s =
    ground (arith, find-others-Above c l k t s, find-Above l k t s, ltb_ℤ_irrefl l l)

others-Above : (c b : ℤ) (t : Map Remote) → Above b t → Above b (others c t)
others-Above c b [] a = tt
others-Above c b ((l, (r, cl)) ∷ t) (p, a) = elim (Bool-cases (cl ==ℤ c)) [
  | inl e ↦ rw e (Above-weaken b l (others c t) p (others-Above c l t a))
  | inr e ↦ rw e (p, others-Above c l t a)
]

pub others-IsSorted : (c : ℤ) (t : Map Remote) → IsSorted t → IsSorted (others c t)
others-IsSorted c [] s = tt
others-IsSorted c ((l, (r, cl)) ∷ t) s = elim (Bool-cases (cl ==ℤ c)) [
  | inl e ↦ rw e (Above-IsSorted l (others c t) (others-Above c l t s))
  | inr e ↦ rw e (others-Above c l t s)
]
