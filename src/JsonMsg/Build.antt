-- ===== src/JsonMsg/Build.antt =====
-- JsonMsg.cpp: the messages that the program builds.
use sacs.Prelude.{
  Bool, List, Result, Text, [], codes, false, json_error, map, ok, or_throw, pos, true, ℤ, ◌>>=◌,
  ◌∷◌,
}
use sacs.Json.{JsonLib}
use sacs.Module.{Module, Property}
use sacs.Maps.{Map}

module _ (J : JsonLib) where
  open J use {Json, object, array, of_int, of_text, dump, put, push_back}

  -- `j[key] = v`
  unfoldable pub set_key : Json → Text → Json → Result Json
  set_key j key v = or_throw json_error (put j key v)

  -- `for (auto& a : list) array.push_back(make(a))`
  unfoldable pub push_each {ℓ} : {A : Type ℓ} → (A → Result Json) → Json → List A → Result Json
  push_each make array [] = ok array
  push_each make array (a ∷ rest) = do
    v ← make a
    array' ← or_throw json_error (push_back array v)
    push_each make array' rest

  unfoldable pub bool_to_int : Bool → ℤ
  bool_to_int true = pos 1
  bool_to_int false = pos 0

  -- One round of the loop of JsonMsg::ModuleToJson.
  unfoldable pub property_to_json : Property → Result Json
  unfolding set_key bool_to_int
  property_to_json property = do
    j₁ ← set_key object (codes "type") (of_int property.type)
    j₂ ← set_key j₁ (codes "name") (of_text property.name)
    j₃ ← set_key j₂ (codes "value") (of_text property.value)
    set_key j₃ (codes "read_only") (of_int (bool_to_int property.read_only))

  -- JsonMsg::ModuleToJson
  unfoldable pub module_to_json : Module → Result Json
  unfolding set_key property_to_json push_each
  module_to_json m = do
    j₁ ← set_key object (codes "id") (of_int m.id)
    j₂ ← set_key j₁ (codes "name") (of_text m.name)
    prop_list ← push_each property_to_json array m.properties
    set_key j₂ (codes "properties") prop_list

  unfoldable pub dump_json : Json → Result Text
  dump_json json = or_throw json_error (dump json)

  -- JsonMsg::CreateModuleAdded
  unfoldable pub create_module_added : Module → Result Text
  unfolding set_key module_to_json dump_json
  create_module_added m = do
    j₁ ← set_key object (codes "type") (of_text (codes "module_added"))
    jmodule ← module_to_json m
    j₂ ← set_key j₁ (codes "module") jmodule
    dump_json j₂

  -- JsonMsg::CreateModuleRemoved
  unfoldable pub create_module_removed : ℤ → Result Text
  unfolding set_key dump_json
  create_module_removed module_id = do
    j₁ ← set_key object (codes "type") (of_text (codes "module_removed"))
    j₂ ← set_key j₁ (codes "id") (of_int module_id)
    dump_json j₂

  -- One round of the loop of JsonMsg::CreatePropertyUpdated.
  unfoldable pub update_to_json : ℤ × Text → Result Json
  unfolding set_key
  update_to_json (id, value) = do
    j₁ ← set_key object (codes "id") (of_int id)
    set_key j₁ (codes "value") (of_text value)

  -- JsonMsg::CreatePropertyUpdated
  unfoldable pub create_property_updated : ℤ → List (ℤ × Text) → Result Text
  unfolding set_key update_to_json push_each dump_json
  create_property_updated module_id properties = do
    j₁ ← set_key object (codes "type") (of_text (codes "property_update"))
    j₂ ← set_key j₁ (codes "id") (of_int module_id)
    list ← push_each update_to_json array properties
    j₃ ← set_key j₂ (codes "properties") list
    dump_json j₃

  -- JsonMsg::CreateModuleList, over the values of the map in the order of their keys.
  unfoldable pub create_module_list : Map Module → Result Text
  unfolding set_key module_to_json push_each dump_json
  create_module_list modules = do
    j₁ ← set_key object (codes "type") (of_text (codes "module_list"))
    module_list ← push_each module_to_json array (map (λ (entry : ℤ × Module). entry.1) modules)
    j₂ ← set_key j₁ (codes "modules") module_list
    dump_json j₂

  -- JsonMsg::Empty
  abbrev pub empty_json : Text
  empty_json = codes "{}"
