-- ===== src/JsonMsg/Modules.antt =====
-- Modules and lists of updates as JSON.
use sacs.Prelude.{List, Result, arith, codes, length, none, ok, refl, some, text_eq, ◌∙◌, ◌≡◌}
use sacs.JsonMsg.Objects.{
  property_to_json-read_property, set_key-Puts, value_to_int-of_int, value_to_string-of_text,
}
use sacs.JsonMsg.Arrays.{push_each-Appends}
use sacs.Json.{JsonLaws, JsonLib}
use sacs.JsonMsg.{JsonMsg, read_each, read_property, to_module, value_to_int, value_to_string}
use sacs.JsonMsg.Build.{module_to_json, property_to_json, push_each}
use sacs.Module.{Module}

module _ {J : JsonLib} (L : JsonLaws J) where
  open J use {Json, array, object, find, size, member, of_int, of_text, is_object}

  -- The array that the loop over `xs` builds is read back as `xs`.
  pub reads_list :
      {A : Type 0} (make : A → Result Json) (read : Json → Result A)
      (inverse : (a : A) → (j : Json) × (make a ≡ ok j) × (read j ≡ ok a)) (xs : List A)
      → (a : Json) × (push_each J make array xs ≡ ok a) × (read_each J read (size a) 0 a ≡ ok xs)
  reads_list make read inverse xs =
      let (a, e, p) = push_each-Appends L make read inverse array xs L.array-is_array in
      let size-length : size a ≡ length xs = omega (arith, p.grown, L.size-array) in
      (a, e, rw (size-length, ← L.size-array) p.reads)

  -- What a receiver has of a module that another process registered.
  abbrev pub without_callback : Module → Module
  without_callback m = record m { callback = none }

  -- Building the JSON of a module does not throw, and ToModule reads from it the same id, name and
  -- properties.
  pub module_to_json-read :
      (m : Module)
      → (j : Json) × (module_to_json J m ≡ ok j)
        × (value_to_int J j (codes "id") ≡ ok m.id)
        × ((msg : JsonMsg J)
            → find msg.json (codes "module") ≡ some j
            → to_module J msg ≡ ok (some (without_callback m)))
  unfolding module_to_json to_module text_eq
  module_to_json-read m =
      let (j₁, e₁, p₁) = set_key-Puts L object (codes "id") (of_int m.id) L.object-is_object in
      let (j₂, e₂, p₂) = set_key-Puts L j₁ (codes "name") (of_text m.name) p₁.stays_object in
      let (a, made, reads) =
        reads_list (property_to_json J) (read_property J) (property_to_json-read_property L)
          m.properties in
      let (j₃, e₃, p₃) = set_key-Puts L j₂ (codes "properties") a p₂.stays_object in
      let id_read : value_to_int J j₃ (codes "id") ≡ ok m.id =
        value_to_int-of_int L j₃ (codes "id") m.id
          (p₃.found (codes "id") ∙ p₂.found (codes "id") ∙ p₁.found (codes "id")) in
      let name_read : value_to_string J j₃ (codes "name") ≡ ok m.name =
        value_to_string-of_text L j₃ (codes "name") m.name
          (p₃.found (codes "name") ∙ p₂.found (codes "name")) in
      let props : member j₃ (codes "properties") ≡ some (j₃, a) =
        L.member-found j₃ (codes "properties") a p₃.stays_object (p₃.found (codes "properties")) in
      (
        j₃,
        rw (e₁, e₂, made, e₃) refl,
        id_read,
        λ msg h. rw (h, to_module, id_read, name_read, props, reads) refl,
      )
