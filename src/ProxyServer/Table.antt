-- ===== src/ProxyServer/Table.antt =====
-- The two lookups in the table of remote modules against one another.
use sacs.Prelude.{
  ==ℤ_iff, ==ℤ_refl, Bool, Bool-cases, [], arith, false, if◌then◌else◌, inl, inr, negsuc, none,
  refl, some, true, ℤ, ◌&&◌, ◌++◌, ◌==ℤ◌, ◌∙◌, ◌∷◌, ◌≡◌, ◌≢◌, ◌⊎◌,
}
use sacs.Maps.{
  Above-IsSorted, IsSorted, Map, find, find-head, find-insert, find-tail, insert-IsSorted,
}
use sacs.ProxyServer.{Remote, add_module, local_id_from_remote, remote_id_from_local}

-- No two local ids stand for the same module of the same client.
abbrev pub IsOneToOne : Map Remote → Type 0
IsOneToOne t = (k j : ℤ) (x : Remote) → find k t ≡ some x → find j t ≡ some x → k ≡ j

module _ (r c i : ℤ) (x : Remote) (t : Map Remote) where
  abbrev matches : Bool
  matches = (x.0 ==ℤ r) && (x.1 ==ℤ c)

  local_id_from_remote-head : matches ≡ true → local_id_from_remote r c ((i, x) ∷ t) ≡ i
  unfolding local_id_from_remote
  local_id_from_remote-head e = rw e

  local_id_from_remote-tail :
      matches ≡ false → local_id_from_remote r c ((i, x) ∷ t) ≡ local_id_from_remote r c t
  unfolding local_id_from_remote
  local_id_from_remote-tail e = rw e

  matches-eq : matches ≡ true → x ≡ (r, c)
  matches-eq e = ground (arith, ==ℤ_iff x.0 r, ==ℤ_iff x.1 c)

  absent-cons :
      matches ≡ false
      → ((k : ℤ) → find k t ≢ some (r, c))
      → (k : ℤ) → find k ((i, x) ∷ t) ≢ some (r, c)
  unfolding find
  absent-cons e absent k h = ground (arith, absent k, ==ℤ_refl r, ==ℤ_refl c)

-- In a sorted table, either the lookup gives the key of an entry for the remote module, or it gives
-- -1 and the table has no such entry.
pub local_id_from_remote-cases :
    (r c : ℤ) (t : Map Remote)
    → IsSorted t
    → (find (local_id_from_remote r c t) t ≡ some (r, c))
      ⊎ ((local_id_from_remote r c t ≡ negsuc 0) × ((k : ℤ) → find k t ≢ some (r, c)))
local_id_from_remote-cases r c [] s =
    inr (unfold local_id_from_remote in refl, λ k h. unfold find in cc h)
local_id_from_remote-cases r c ((i, x) ∷ t) s = elim (Bool-cases (matches r c i x t)) [
  | inl e ↦
      inl
        (rw (local_id_from_remote-head r c i x t e, matches-eq r c i x t e) (find-head i (r, c) t))
  | inr e ↦ elim (local_id_from_remote-cases r c t (Above-IsSorted i t s)) [
    | inl h ↦ inl (
        rw (local_id_from_remote-tail r c i x t e)
          (find-tail i (local_id_from_remote r c t) x t s h))
    | inr (h, absent) ↦
        inr (local_id_from_remote-tail r c i x t e ∙ h, absent-cons r c i x t e absent)
  ]
]

-- Whether the table has an entry for the module `r` of client `c`.
abbrev pub has_remote : ℤ → ℤ → Map Remote → Bool
has_remote r c [] = false
has_remote r c ((i, x) ∷ t) = if matches r c i x t then true else has_remote r c t

-- An entry at the end is found where no other is.
pub local_id_from_remote-append :
    (r c l : ℤ) (x : Remote) (t : Map Remote)
    → local_id_from_remote r c (t ++ (l, x) ∷ []) ≡ (
        if has_remote r c t
        then local_id_from_remote r c t
        else if has_remote r c ((l, x) ∷ [])
        then l
        else negsuc 0)
unfolding local_id_from_remote
local_id_from_remote-append r c l x [] = ground arith
local_id_from_remote-append r c l x ((i, y) ∷ t) =
    ground (arith, local_id_from_remote-append r c l x t)

-- Where the table is sorted and one to one, the two lookups undo one another at each entry that it
-- holds.
pub local_id_from_remote-remote_id_from_local :
    (t : Map Remote) (k : ℤ) (x : Remote)
    → IsSorted t
    → IsOneToOne t
    → find k t ≡ some x
    → (remote_id_from_local k t ≡ x) × (local_id_from_remote x.0 x.1 t ≡ k)
unfolding remote_id_from_local
local_id_from_remote-remote_id_from_local t k x s one h = (
  rw (h, remote_id_from_local) refl,
  elim (local_id_from_remote-cases x.0 x.1 t s) [
    | inl found ↦ one (local_id_from_remote x.0 x.1 t) k x found h
    | inr (_, absent) ↦ absurd (absent k h)
  ],
)

-- The table is in order, and both of its lookups lead from the one id to the other.
pub record Files (l r c : ℤ) (t t' : Map Remote) : Type 0 where
  pub sorted : IsSorted t'
  pub one_to_one : IsOneToOne t'
  pub to_remote : remote_id_from_local l t' ≡ (r, c)
  pub to_local : local_id_from_remote r c t' ≡ l

pub add_module-find :
    (l r c k : ℤ) (t : Map Remote)
    → IsSorted t
    → find l t ≡ none
    → find k (add_module l r c t) ≡ (if k ==ℤ l then some (r, c) else find k t)
unfolding add_module
add_module-find l r c k t s free = rw (find-insert l k (r, c) t s, free) refl

-- Filing a module that its client has not announced before, under an id that is free, keeps a
-- sorted table sorted and a one to one table one to one, and both lookups then lead from the one id
-- to the other.
pub add_module-Files :
    (l r c : ℤ) (t : Map Remote)
    → IsSorted t
    → IsOneToOne t
    → find l t ≡ none
    → ((k : ℤ) → find k t ≢ some (r, c))
    → Files l r c t (add_module l r c t)
add_module-Files l r c t s one free new =
    let sorted : IsSorted (add_module l r c t) =
      unfold add_module in insert-IsSorted l (r, c) t s in
    let one' : IsOneToOne (add_module l r c t) = λ k j x h h'. ground (
      arith,
      add_module-find l r c k t s free,
      add_module-find l r c j t s free,
      one k j x,
      new k,
      new j,
      ==ℤ_iff k l,
      ==ℤ_iff j l,
    ) in
    let found : find l (add_module l r c t) ≡ some (r, c) =
      rw (add_module-find l r c l t s free, ==ℤ_refl l) refl in
    let both =
      local_id_from_remote-remote_id_from_local (add_module l r c t) l (r, c) sorted one' found in
    record { sorted = sorted; one_to_one = one'; to_remote = both.0; to_local = both.1 }
