-- ===== src/Module/Reference.antt =====
-- The loop of updates against an update of all properties at once.
use mathlib.Core.Option
use mathlib.Core.Path.{ap₂}
use sacs.Prelude.{
  Bool-cases, List, Text, [], arith, get_elem?, if◌then◌else◌, inl, inr, ok, out_of_range, refl,
  suc, sym, throw, zero, ℕ, ℤ, ◌+◌, ◌∙◌, ◌∷◌, ◌≡◌,
}
use sacs.Jni.Delivery.{some_injective}
use sacs.Module.{Module, Property, set_property_values}
use sacs.Module.Update.{
  last_update, non_negative, set_property_values-Saved, set_property_values-ok,
  set_property_values-throws, updated,
}

-- Each property has the last value given to it, from index `i` on.
unfoldable pub with_updates : ℕ → List (ℤ × Text) → List Property → List Property
with_updates i us [] = []
with_updates i us (p ∷ ps) = updated (last_update i us) p ∷ with_updates (suc i) us ps

abbrev pub apply_updates : List (ℤ × Text) → Module → Module
apply_updates us m = record m { properties = with_updates 0 us m.properties }

get_elem?-ext :
    {A : Type 0} (xs ys : List A) → ((i : ℕ) → get_elem? xs i ≡ get_elem? ys i) → xs ≡ ys
get_elem?-ext [] [] h = refl
get_elem?-ext [] (y ∷ ys) h = cc (h 0)
get_elem?-ext (x ∷ xs) [] h = cc (h 0)
get_elem?-ext (x ∷ xs) (y ∷ ys) h =
    ap₂ ◌∷◌ (some_injective (h 0)) (get_elem?-ext xs ys (λ i. h (suc i)))

get_elem?-with_updates :
    (i j : ℕ) (us : List (ℤ × Text)) (ps : List Property)
    → get_elem? (with_updates i us ps) j
      ≡ Option.map (updated (last_update (i + j) us)) (get_elem? ps j)
unfolding with_updates
get_elem?-with_updates i j us [] = refl
get_elem?-with_updates i zero us (p ∷ ps) = let same : i + 0 ≡ i = omega arith in rw same refl
get_elem?-with_updates i (suc j) us (p ∷ ps) =
    let moved : i + suc j ≡ suc i + j = omega arith in
    rw moved (get_elem?-with_updates (suc i) j us ps)

pub with_updates-nil : (i : ℕ) (ps : List Property) → with_updates i [] ps ≡ ps
unfolding with_updates
with_updates-nil i [] = refl
with_updates-nil i (p ∷ ps) = rw (with_updates-nil (suc i) ps) refl

Module-ext :
    {m n : Module}
    → m.id ≡ n.id
    → m.name ≡ n.name
    → m.properties ≡ n.properties
    → m.callback ≡ n.callback
    → m ≡ n
Module-ext a b c d = cc

-- The loop of updates gives the module with the updates applied.
pub set_property_values-apply_updates :
    (m : Module) (us : List (ℤ × Text)) {m' : Module}
    → set_property_values m us ≡ ok m'
    → m' ≡ apply_updates us m
set_property_values-apply_updates m us {m'} h =
    let s = set_property_values-ok m us h in
    let same : m'.properties ≡ with_updates 0 us m.properties =
      get_elem?-ext m'.properties (with_updates 0 us m.properties) (λ i.
        let start : 0 + i ≡ i = omega arith in
        s.each i ∙ sym (rw start at (get_elem?-with_updates 0 i us m.properties))) in
    Module-ext s.same_id s.same_name same s.same_callback

-- The loop of updates is the update of all properties at once: with a negative index among the
-- updates it throws `out_of_range`, and else each property that is not read-only has the last value
-- given to it, each that is read-only has its old value, and all else is as before.
pub set_property_values-reference :
    (m : Module) (us : List (ℤ × Text))
    → set_property_values m us
      ≡ (if non_negative us then ok (apply_updates us m) else throw out_of_range)
set_property_values-reference m us = elim (Bool-cases (non_negative us)) [
  | inl n ↦
      let (m', e, _) = set_property_values-Saved m us n in
      rw (n, e, set_property_values-apply_updates m us e) refl
  | inr n ↦ rw (n, set_property_values-throws m us n) refl
]
