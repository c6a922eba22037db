-- ===== src/JsonMsg/Objects.antt =====
-- The single objects that the program builds, and how they are read back.
use sacs.Prelude.{Bool, Text, codes, false, ok, refl, some, text_eq, true, ℤ, ◌∙◌, ◌≡◌}
use sacs.Json.{JsonLaws, JsonLib, Puts}
use sacs.Module.{Property}
use sacs.JsonMsg.{int_to_bool, read_property, read_update, value_to_int, value_to_string}
use sacs.JsonMsg.Build.{bool_to_int, property_to_json, set_key, update_to_json}

module _ {J : JsonLib} (L : JsonLaws J) where
  open J use {Json, find, object, of_int, of_text, is_object}

  pub set_key-Puts :
      (j : Json) (k : Text) (v : Json)
      → is_object j ≡ true
      → (j' : Json) × (set_key J j k v ≡ ok j') × Puts J j k v j'
  unfolding set_key
  set_key-Puts j k v h = let (j', p) = L.put_lem j k v h in (j', rw p.made refl, p)

  pub value_to_int-of_int :
      (j : Json) (k : Text) (n : ℤ) → find j k ≡ some (of_int n) → value_to_int J j k ≡ ok n
  unfolding value_to_int
  value_to_int-of_int j k n h = rw (h, value_to_int, L.get_int-of_int n) refl

  pub value_to_string-of_text :
      (j : Json) (k s : Text) → find j k ≡ some (of_text s) → value_to_string J j k ≡ ok s
  unfolding value_to_string
  value_to_string-of_text j k s h = rw (h, value_to_string, L.get_text-of_text s) refl

  pub update_to_json-read_update :
      (u : ℤ × Text) → (j : Json) × (update_to_json J u ≡ ok j) × (read_update J j ≡ ok u)
  unfolding update_to_json read_update text_eq
  update_to_json-read_update (id, value) =
      let (j₁, e₁, p₁) = set_key-Puts object (codes "id") (of_int id) L.object-is_object in
      let (j₂, e₂, p₂) = set_key-Puts j₁ (codes "value") (of_text value) p₁.stays_object in
      (
        j₂,
        rw (e₁, e₂) refl,
        rw
            (
              value_to_int-of_int j₂ (codes "id") id
                  (p₂.found (codes "id") ∙ p₁.found (codes "id")),
              value_to_string-of_text j₂ (codes "value") value (p₂.found (codes "value")),
            )
            refl,
      )

  bool_to_int-int_to_bool : (b : Bool) → int_to_bool J (bool_to_int J b) ≡ b
  unfolding bool_to_int
  bool_to_int-int_to_bool true = refl
  bool_to_int-int_to_bool false = refl

  pub property_to_json-read_property :
      (p : Property) → (j : Json) × (property_to_json J p ≡ ok j) × (read_property J j ≡ ok p)
  unfolding property_to_json read_property text_eq
  property_to_json-read_property p =
      let (j₁, e₁, p₁) = set_key-Puts object (codes "type") (of_int p.type) L.object-is_object in
      let (j₂, e₂, p₂) = set_key-Puts j₁ (codes "name") (of_text p.name) p₁.stays_object in
      let (j₃, e₃, p₃) = set_key-Puts j₂ (codes "value") (of_text p.value) p₂.stays_object in
      let flag = of_int (bool_to_int J p.read_only) in
      let (j₄, e₄, p₄) = set_key-Puts j₃ (codes "read_only") flag p₃.stays_object in
      (
        j₄,
        rw (e₁, e₂, e₃, e₄) refl,
        rw
            (
              value_to_int-of_int j₄ (codes "type") p.type (
                  p₄.found (codes "type")
                  ∙ p₃.found (codes "type")
                  ∙ p₂.found (codes "type")
                  ∙ p₁.found (codes "type")),
              value_to_string-of_text j₄ (codes "name") p.name
                  (p₄.found (codes "name") ∙ p₃.found (codes "name") ∙ p₂.found (codes "name")),
              value_to_string-of_text j₄ (codes "value") p.value
                  (p₄.found (codes "value") ∙ p₃.found (codes "value")),
              value_to_int-of_int j₄ (codes "read_only") (bool_to_int J p.read_only)
                  (p₄.found (codes "read_only")),
              bool_to_int-int_to_bool p.read_only,
            )
            refl,
      )
