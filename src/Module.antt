-- ===== src/Module.antt =====
-- Module.h and Module.cpp: a module and its properties. A callback pointer is a number that stands
-- for the function, or `none` for null. The shared pointers that name a module are used on one
-- thread, and the map of the manager is their only holder, so a module is a value in that map.
pub mod Update
pub mod Reference
use sacs.Prelude.{
  Bool, List, Option, Result, Text, [], get_elem?, if◌then◌else◌, length, ltb_ℤ, negsuc, none, ok,
  or_throw, out_of_range, pos, set, ℕ, ℤ, ◌>>=◌, ◌∷◌,
}

pub record Property : Type 0 where
  pub type : ℤ
  pub name : Text
  pub value : Text
  pub read_only : Bool

pub record Module : Type 0 where
  pub id : ℤ
  pub name : Text
  pub properties : List Property
  pub callback : Option ℕ

-- Module::Module(id, name, props, callback)
abbrev pub make_module : ℤ → Text → List Property → Option ℕ → Module
make_module id name props callback = record {
  id = id;
  name = name;
  properties = props;
  callback = callback;
}

-- Module::Module(name, props, callback)
unfoldable pub new_module : Text → List Property → Option ℕ → Module
new_module name props callback = make_module (negsuc 0) name props callback

unfoldable pub set_id : Module → ℤ → Module
set_id m id = record m { id = id }

-- Property::SetValue
unfoldable pub set_value : Property → Text → Property
set_value p value = if p.read_only then p else record p { value = value }

-- vector::at, whose index is unsigned: a negative `int` is far out of range.
unfoldable pub vector_at {ℓ} : {A : Type ℓ} → List A → ℤ → Option A
vector_at xs (pos i) = get_elem? xs i
vector_at xs (negsuc i) = none

abbrev write_at {ℓ} : {A : Type ℓ} → List A → ℤ → A → List A
write_at xs (pos i) v = set xs i v
write_at xs (negsuc i) v = xs

-- Module::SetPropertyValue
unfoldable pub set_property_value : Module → ℤ → Text → Result Module
unfolding set_value vector_at
set_property_value m property_id value =
    if ltb_ℤ property_id (pos (length m.properties))
    then (do
      p ← or_throw out_of_range (vector_at m.properties property_id)
      ok (record m { properties = write_at m.properties property_id (set_value p value) }))
    else ok m

-- The loop of ModuleManager::SavePropertiesList over one module.
unfoldable pub set_property_values : Module → List (ℤ × Text) → Result Module
unfolding set_property_value
set_property_values m [] = ok m
set_property_values m ((id, value) ∷ rest) = do
  m' ← set_property_value m id value
  set_property_values m' rest
