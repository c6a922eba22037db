-- ===== src/Module/Update.antt =====
-- What a list of updates leaves in the properties of a module.
use mathlib.Core.Option
use sacs.Prelude.{
  Bool, Bool-cases, List, Option, Option-cases, Text, [], arith, false, get_elem?, get_elem?-none,
  get_elem?-some, if◌then◌else◌, inl, inr, negsuc, none, ok, out_of_range, pos, refl, set, some,
  subst, suc, throw, true, zero, ℕ, ℤ, ◌==ℤ◌, ◌==◌, ◌∙◌, ◌∷◌, ◌≡◌,
}
use sacs.Module.{Module, Property, set_property_value, set_property_values, set_value}

-- No update names a negative index.
abbrev pub non_negative : List (ℤ × Text) → Bool
non_negative [] = true
non_negative ((pos i, v) ∷ us) = non_negative us
non_negative ((negsuc i, v) ∷ us) = false

abbrev pub or_last : Option Text → Option Text → Option Text
or_last older none = older
or_last older (some v) = some v

-- The last value that the updates give to index `i`.
abbrev pub last_update : ℕ → List (ℤ × Text) → Option Text
last_update i [] = none
last_update i ((id, v) ∷ us) = or_last (if id ==ℤ pos i then some v else none) (last_update i us)

-- A property behind updates, by the last value that they give to it: one that is read-only keeps the
-- value that it had.
abbrev pub updated : Option Text → Property → Property
updated none p = p
updated (some v) p = record p { value = if p.read_only then p.value else v }

set_value-updated : (p : Property) (v : Text) → set_value p v ≡ updated (some v) p
unfolding set_value
set_value-updated p v = elim (Bool-cases p.read_only) [ inl e ↦ rw e refl | inr e ↦ rw e refl ]

get_elem?-set :
    {A : Type 0} (xs : List A) (i j : ℕ) (v : A)
    → get_elem? (set xs i v) j
      ≡ (if i == j then Option.map (λ _. v) (get_elem? xs i) else get_elem? xs j)
get_elem?-set [] i j v = ground arith
get_elem?-set (x ∷ xs) zero zero v = refl
get_elem?-set (x ∷ xs) zero (suc j) v = ground arith
get_elem?-set (x ∷ xs) (suc i) zero v = ground arith
get_elem?-set (x ∷ xs) (suc i) (suc j) v = ground (arith, get_elem?-set xs i j v)

-- What the loop of updates leaves: the properties in place, each with the last value given to it.
pub record Saved (m : Module) (us : List (ℤ × Text)) (m' : Module) : Type 0 where
  pub same_id : m'.id ≡ m.id
  pub same_name : m'.name ≡ m.name
  pub same_callback : m'.callback ≡ m.callback
  pub each :
      (i : ℕ)
      → get_elem? m'.properties i
        ≡ Option.map (updated (last_update i us)) (get_elem? m.properties i)

updated-or_last :
    (a b : Option Text) (o : Option Property)
    → Option.map (updated b) (Option.map (updated a) o) ≡ Option.map (updated (or_last a b)) o
updated-or_last a b o = ground arith

-- One update: it changes one property at most, and throws for a negative index alone.
pub set_property_value-pos :
    (m : Module) (i : ℕ) (v : Text)
    → (m' : Module) × (set_property_value m (pos i) v ≡ ok m') × Saved m ((pos i, v) ∷ []) m'
unfolding set_property_value
set_property_value-pos m i v = elim (Option-cases (get_elem? m.properties i)) [
  | inl e ↦ (
    m,
    ground (arith, get_elem?-none m.properties i),
    record { same_id = refl; same_name = refl; same_callback = refl; each = λ j. ground arith },
  )
  | inr (p, e) ↦ (
    record m { properties = set m.properties i (set_value p v) },
    ground (arith, get_elem?-some m.properties i e),
    record {
      same_id = refl;
      same_name = refl;
      same_callback = refl;
      each = λ j.
          ground (arith, get_elem?-set m.properties i j (set_value p v), set_value-updated p v);
    },
  )
]

Saved-append :
    {m m' m'' : Module} (i : ℕ) (v : Text) (us : List (ℤ × Text))
    → Saved m ((pos i, v) ∷ []) m'
    → Saved m' us m''
    → Saved m ((pos i, v) ∷ us) m''
Saved-append {m = m} i v us s t = record {
  same_id = t.same_id ∙ s.same_id;
  same_name = t.same_name ∙ s.same_name;
  same_callback = t.same_callback ∙ s.same_callback;
  each = λ j. rw (t.each j, s.each j) (updated-or_last _ _ (get_elem? m.properties j));
}

-- With no negative index the loop of updates ends without a throw, and each property has the last
-- value given to it, or its old one if it is read-only or gets none; the module is else unchanged.
pub set_property_values-Saved :
    (m : Module) (us : List (ℤ × Text))
    → non_negative us ≡ true
    → (m' : Module) × (set_property_values m us ≡ ok m') × Saved m us m'
unfolding set_property_values
set_property_values-Saved m [] h = (
  m,
  refl,
  record { same_id = refl; same_name = refl; same_callback = refl; each = λ i. ground arith },
)
set_property_values-Saved m ((pos i, v) ∷ us) h =
    let (m', e, s) = set_property_value-pos m i v in
    let (m'', e', s') = set_property_values-Saved m' us h in
    (m'', rw (e, e') refl, Saved-append i v us s s')
set_property_values-Saved m ((negsuc i, v) ∷ us) h = cc

-- With a negative index among the updates the loop throws `out_of_range`, whatever stands before
-- and behind it.
pub set_property_values-throws :
    (m : Module) (us : List (ℤ × Text))
    → non_negative us ≡ false
    → set_property_values m us ≡ throw out_of_range
unfolding set_property_values
set_property_values-throws m [] h = cc
set_property_values-throws m ((pos i, v) ∷ us) h =
    let (m', e, s) = set_property_value-pos m i v in rw e (set_property_values-throws m' us h)
set_property_values-throws m ((negsuc i, v) ∷ us) h = unfold set_property_value in refl

-- Whenever the loop ends without a throw, it has saved the updates.
pub set_property_values-ok :
    (m : Module) (us : List (ℤ × Text)) {m' : Module}
    → set_property_values m us ≡ ok m'
    → Saved m us m'
set_property_values-ok m us {m'} h = elim (Bool-cases (non_negative us)) [
  | inl e ↦
      let (x, made, s) = set_property_values-Saved m us e in
      let same : x ≡ m' = cc in subst (Saved m us) same s
  | inr e ↦ cc (set_property_values-throws m us e)
]
