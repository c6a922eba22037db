-- ===== src/JsonMsg/Totality.antt =====
-- Where the builders of messages can fail.
use sacs.Prelude.{List, Result, Text, [], codes, map, ok, refl, true, ℤ, ◌∷◌, ◌≡◌}
use sacs.Json.{JsonLaws, JsonLib}
use sacs.JsonMsg.Build.{
  create_module_added, create_module_list, create_module_removed, create_property_updated,
  dump_json, module_to_json, push_each, update_to_json,
}
use sacs.JsonMsg.Modules.{module_to_json-read}
use sacs.JsonMsg.Objects.{set_key-Puts, update_to_json-read_update}
use sacs.Maps.{Map}
use sacs.Module.{Module}

module _ {J : JsonLib} (L : JsonLaws J) where
  open J use {Json, array, object, of_int, of_text, is_object, is_array}

  push_each-ok :
      {A : Type 0} (make : A → Result Json) (total : (a : A) → (j : Json) × (make a ≡ ok j))
      (a : Json) (xs : List A)
      → is_array a ≡ true
      → (a' : Json) × (push_each J make a xs ≡ ok a')
  unfolding push_each
  push_each-ok make total a [] h = (a, refl)
  push_each-ok make total a (x ∷ xs) h =
      let (j, made) = total x in
      let (a₁, p) = L.push_back_lem a j h in
      let (a', e) = push_each-ok make total a₁ xs p.stays_array in (a', rw (made, p.pushed) e)

  module_to_json-ok : (m : Module) → (j : Json) × (module_to_json J m ≡ ok j)
  module_to_json-ok m = let (j, e, _, _) = module_to_json-read L m in (j, e)

  update_to_json-ok : (u : ℤ × Text) → (j : Json) × (update_to_json J u ≡ ok j)
  update_to_json-ok u = let (j, e, _) = update_to_json-read_update L u in (j, e)

  create_module_added-dump : (m : Module) → (j : Json) × (create_module_added J m ≡ dump_json J j)
  unfolding create_module_added
  create_module_added-dump m =
      let (j₁, e₁, p₁) =
        set_key-Puts L object (codes "type") (of_text (codes "module_added")) L.object-is_object in
      let (jm, e) = module_to_json-ok m in
      let (j₂, e₂, _) = set_key-Puts L j₁ (codes "module") jm p₁.stays_object in
      (j₂, rw (e₁, e, e₂) refl)

  create_module_removed-dump : (id : ℤ) → (j : Json) × (create_module_removed J id ≡ dump_json J j)
  unfolding create_module_removed
  create_module_removed-dump id =
      let (j₁, e₁, p₁) =
        set_key-Puts L object (codes "type") (of_text (codes "module_removed"))
          L.object-is_object in
      let (j₂, e₂, _) = set_key-Puts L j₁ (codes "id") (of_int id) p₁.stays_object in
      (j₂, rw (e₁, e₂) refl)

  create_property_updated-dump :
      (id : ℤ) (us : List (ℤ × Text))
      → (j : Json) × (create_property_updated J id us ≡ dump_json J j)
  unfolding create_property_updated
  create_property_updated-dump id us =
      let (j₁, e₁, p₁) =
        set_key-Puts L object (codes "type") (of_text (codes "property_update"))
          L.object-is_object in
      let (j₂, e₂, p₂) = set_key-Puts L j₁ (codes "id") (of_int id) p₁.stays_object in
      let (a, made) = push_each-ok (update_to_json J) update_to_json-ok array us L.array-is_array in
      let (j₃, e₃, _) = set_key-Puts L j₂ (codes "properties") a p₂.stays_object in
      (j₃, rw (e₁, e₂, made, e₃) refl)

  create_module_list-dump :
      (modules : Map Module) → (j : Json) × (create_module_list J modules ≡ dump_json J j)
  unfolding create_module_list
  create_module_list-dump modules =
      let (j₁, e₁, p₁) =
        set_key-Puts L object (codes "type") (of_text (codes "module_list")) L.object-is_object in
      let (a, made) =
        push_each-ok (module_to_json J) module_to_json-ok array
          (map (λ (entry : ℤ × Module). entry.1) modules) L.array-is_array in
      let (j₂, e₂, _) = set_key-Puts L j₁ (codes "modules") a p₁.stays_object in
      (j₂, rw (e₁, made, e₂) refl)

  -- Each of the four builders of messages comes to a JSON value and gives what `dump` makes of it,
  -- so that it throws only where `dump` does.
  pub builders_fail_in_dump :
      (m : Module) (id : ℤ) (us : List (ℤ × Text)) (modules : Map Module)
      → ((j : Json) × (create_module_added J m ≡ dump_json J j))
        × ((j : Json) × (create_module_removed J id ≡ dump_json J j))
        × ((j : Json) × (create_property_updated J id us ≡ dump_json J j))
        × ((j : Json) × (create_module_list J modules ≡ dump_json J j))
  builders_fail_in_dump m id us modules = (
    create_module_added-dump m,
    create_module_removed-dump id,
    create_property_updated-dump id us,
    create_module_list-dump modules,
  )
