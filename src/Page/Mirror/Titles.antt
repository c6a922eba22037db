-- ===== src/Page/Mirror/Titles.antt =====
-- The numbers and names of the page's modules, when one comes, goes or changes.
use sacs.Prelude.{
  Bool-cases, List, [], arith, false, inl, inr, refl, some, some_injective, suc, true, ℕ, ◌++◌,
  ◌==◌, ◌∷◌, ◌≡◌, ◌≤◌,
}
use sacs.Page.{PageModule, get_module_by_id, remove_module_by_id, set_module}
use sacs.Page.Environment.{Browser}
use sacs.Page.Mirror.{Rising, titles}
use sacs.Page.Mirror.Listed.{firsts, without, without-none}
use sacs.Page.Mirror.Modules.{Entry}

module _ {B : Browser} where
  open B use {Value, same_key}

  pub titles-append :
      (fs : List (Entry B)) (f : Entry B)
      → titles (fs ++ f ∷ []) ≡ titles fs ++ (f.1.object_no, f.1.name) ∷ []
  titles-append [] f = refl
  titles-append (g ∷ fs) f = rw (titles-append fs f) refl

  get_module-above :
      (key : Value) (lo hi : ℕ) (fs : List (Entry B)) {pm : PageModule B}
      → Rising lo (firsts (titles fs)) hi
      → get_module_by_id key fs ≡ some pm
      → lo ≤ pm.object_no
  unfolding get_module_by_id
  get_module-above key lo hi [] r h = cc
  get_module-above key lo hi ((k, m) ∷ fs) {pm} (p, r) h = elim (Bool-cases (same_key k key)) [
    | inl e ↦ let same : m ≡ pm = some_injective (rw e at h) in ground (arith, p, same)
    | inr e ↦ let above = get_module-above key (suc m.object_no) hi fs r (rw e at h) in omega arith
  ]

  pub titles-remove :
      (key : Value) (lo hi : ℕ) (fs : List (Entry B)) {pm : PageModule B}
      → Rising lo (firsts (titles fs)) hi
      → get_module_by_id key fs ≡ some pm
      → titles (remove_module_by_id key fs) ≡ without pm.object_no (titles fs)
  unfolding get_module_by_id remove_module_by_id
  titles-remove key lo hi [] r h = cc
  titles-remove key lo hi ((k, m) ∷ fs) {pm} (p, r) h = elim (Bool-cases (same_key k key)) [
    | inl e ↦
        let same : m ≡ pm = some_injective (rw e at h) in
        let this : (m.object_no == pm.object_no) ≡ true = ground (arith, same) in
        let rest =
          without-none pm.object_no (suc m.object_no) hi (titles fs) r (ground (arith, same)) in
        rw (e, this, rest) refl
    | inr e ↦
        let above = get_module-above key (suc m.object_no) hi fs r (rw e at h) in
        let other : (m.object_no == pm.object_no) ≡ false = ground arith in
        rw (e, other, titles-remove key (suc m.object_no) hi fs r (rw e at h)) refl
  ]

  pub titles-set_module :
      (key : Value) (pm pm' : PageModule B) (fs : List (Entry B))
      → get_module_by_id key fs ≡ some pm
      → pm'.object_no ≡ pm.object_no
      → pm'.name ≡ pm.name
      → titles (set_module key pm' fs) ≡ titles fs
  unfolding get_module_by_id set_module
  titles-set_module key pm pm' [] h o n = cc
  titles-set_module key pm pm' ((k, m) ∷ fs) h o n = elim (Bool-cases (same_key k key)) [
    | inl e ↦ let same : m ≡ pm = some_injective (rw e at h) in rw (e, o, n, same) refl
    | inr e ↦ rw (e, titles-set_module key pm pm' fs (rw e at h) o n) refl
  ]
