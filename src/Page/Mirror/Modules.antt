-- ===== src/Page/Mirror/Modules.antt =====
-- The entries of the page's map beside those of the registry.
use sacs.Prelude.{
  Bool, Bool-cases, List, [], arith, false, inl, inr, none, refl, some, some_injective, subst, true,
  ℤ, ◌++◌, ◌==ℤ◌, ◌∙◌, ◌∷◌, ◌≡◌,
}
use sacs.Maps.{
  IsSorted, Map, Above-IsSorted, assign, assign-absent, erase, erase-absent, find, find-first,
}
use sacs.Json.{JsonLib}
use sacs.Module.{Module}
use sacs.Page.{ModuleButton, PageModule, get_module_by_id, remove_module_by_id, set_module}
use sacs.Page.Environment.{Browser, BrowserLaws}
use sacs.Page.Mirror.{HasButton, ShowsEntries}
use sacs.Page.Mirror.Buttons.{Keeps}

module _ (B : Browser) where
  open B use {Value}

  abbrev pub Entry : Type 0
  Entry = Value × PageModule B

module _ {B : Browser} where
  pub ShowsEntries-Keeps :
      (bs bs' : List (ModuleButton B)) (es : Map Module) (fs : List (Entry B))
      → Keeps bs bs'
      → ShowsEntries B bs es fs
      → ShowsEntries B bs' es fs
  ShowsEntries-Keeps bs bs' [] [] k s = tt
  ShowsEntries-Keeps bs bs' ((j, m) ∷ es) ((v, pm) ∷ fs) k ((a, b, c, d), r) =
      ((a, b, c, k pm.object_no d), ShowsEntries-Keeps bs bs' es fs k r)
  ShowsEntries-Keeps bs bs' [] (f ∷ fs) k s = absurd s
  ShowsEntries-Keeps bs bs' (e ∷ es) [] k s = absurd s

  pub ShowsEntries-append :
      (bs : List (ModuleButton B)) (es : Map Module) (fs : List (Entry B)) (e : ℤ × Module)
      (f : Entry B)
      → ShowsEntries B bs es fs
      → HasButton B bs e f
      → ShowsEntries B bs (es ++ e ∷ []) (fs ++ f ∷ [])
  ShowsEntries-append bs [] [] e f s h = (h, tt)
  ShowsEntries-append bs (x ∷ es) (y ∷ fs) e f (s, r) h = (s, ShowsEntries-append bs es fs e f r h)
  ShowsEntries-append bs [] (y ∷ fs) e f s h = absurd s
  ShowsEntries-append bs (x ∷ es) [] e f s h = absurd s

module _ {J : JsonLib} {B : Browser} (C : BrowserLaws J B) (bs : List (ModuleButton B)) where
  pub same_key-head :
      (v : B.Value) (j k : ℤ) (b : Bool)
      → v ≡ B.number j
      → (j ==ℤ k) ≡ b
      → B.same_key v (B.number k) ≡ b
  same_key-head v j k b e h = rw (e, C.same_key-number j k) h

  pub get_module-found :
      (k : ℤ) (m : Module) (es : Map Module) (fs : List (Entry B))
      → ShowsEntries B bs es fs
      → find k es ≡ some m
      → (pm : PageModule B) × (get_module_by_id (B.number k) fs ≡ some pm)
        × HasButton B bs (k, m) (B.number k, pm)
  unfolding find get_module_by_id
  get_module-found k m [] fs s h = cc
  get_module-found k m (e ∷ es) [] s h = absurd s
  get_module-found k m ((j, x) ∷ es) ((v, pm) ∷ fs) ((a, b, c, d), r) h =
      elim (Bool-cases (j ==ℤ k)) [
        | inl e ↦
            let same : x ≡ m = some_injective (rw e at h) in
            let own : x.id ≡ k = b ∙ ground arith in
            (
              pm,
              rw (same_key-head v j k true a e) refl,
              subst (λ y. HasButton B bs (k, y) (B.number k, pm)) same (refl, own, c, d),
            )
        | inr e ↦ rw (same_key-head v j k false a e) (get_module-found k m es fs r (rw e at h))
      ]

  pub set_module-absent :
      (k : ℤ) (pm : PageModule B) (es : Map Module) (fs : List (Entry B))
      → ShowsEntries B bs es fs
      → find k es ≡ none
      → set_module (B.number k) pm fs ≡ fs ++ (B.number k, pm) ∷ []
  unfolding find set_module
  set_module-absent k pm [] [] s h = refl
  set_module-absent k pm [] (f ∷ fs) s h = absurd s
  set_module-absent k pm (e ∷ es) [] s h = absurd s
  set_module-absent k pm ((j, x) ∷ es) ((v, y) ∷ fs) ((a, b, c, d), r) h =
      elim (Bool-cases (j ==ℤ k)) [
        | inl e ↦ cc (rw e at h)
        | inr e ↦
            rw (same_key-head v j k false a e, set_module-absent k pm es fs r (rw e at h)) refl
      ]

  pub remove_module-Shows :
      (k : ℤ) (es : Map Module) (fs : List (Entry B))
      → IsSorted es
      → ShowsEntries B bs es fs
      → ShowsEntries B bs (erase k es) (remove_module_by_id (B.number k) fs)
  unfolding erase remove_module_by_id
  remove_module-Shows k [] [] o s = tt
  remove_module-Shows k [] (f ∷ fs) o s = absurd s
  remove_module-Shows k (e ∷ es) [] o s = absurd s
  remove_module-Shows k ((j, x) ∷ es) ((v, y) ∷ fs) o (t, r) = elim (Bool-cases (j ==ℤ k)) [
    | inl e ↦ rw (same_key-head v j k true t.0 e, e, erase-absent k es (find-first j k x es e o)) r
    | inr e ↦
        rw (same_key-head v j k false t.0 e, e)
          (t, remove_module-Shows k es fs (Above-IsSorted j es o) r)
  ]

  pub set_module-Shows :
      (k : ℤ) (m : Module) (pm : PageModule B) (es : Map Module) (fs : List (Entry B)) {x : Module}
      → IsSorted es
      → ShowsEntries B bs es fs
      → find k es ≡ some x
      → HasButton B bs (k, m) (B.number k, pm)
      → ShowsEntries B bs (assign k m es) (set_module (B.number k) pm fs)
  unfolding assign set_module find
  set_module-Shows k m pm [] fs o s f h = cc
  set_module-Shows k m pm (e ∷ es) [] o s f h = absurd s
  set_module-Shows k m pm ((j, x) ∷ es) ((v, y) ∷ fs) o (t, r) f h = elim (Bool-cases (j ==ℤ k)) [
    | inl e ↦
        let key : k ≡ j = ground arith in
        rw (same_key-head v j k true t.0 e, e, assign-absent k m es (find-first j k x es e o))
          ((t.0, h.1 ∙ key, h.2, h.3), r)
    | inr e ↦
        rw (same_key-head v j k false t.0 e, e)
          (t, set_module-Shows k m pm es fs (Above-IsSorted j es o) r (rw e at f) h)
  ]
