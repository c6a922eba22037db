-- ===== src/Page/Reading.antt =====
-- What the page reads from the objects that JsonMsg.cpp builds.
use sacs.Prelude.{
  List, Result, Text, [], append-nil, append_assoc, arith, codes, get_elem?, if◌then◌else◌, length,
  map, ok, refl, some, suc, text_eq, true, zero, ℕ, ℤ, ◌+◌, ◌++◌, ◌==◌, ◌∙◌, ◌∷◌, ◌≡◌, ◌<◌,
}
use sacs.Json.{JsonLaws, JsonLib, Pushes}
use sacs.JsonMsg.Build.{module_to_json, property_to_json, push_each, update_to_json, bool_to_int}
use sacs.JsonMsg.Objects.{set_key-Puts}
use sacs.Module.{Module, Property}

module _ {A : Type 0} where
  length-append : (xs ys : List A) → length (xs ++ ys) ≡ length xs + length ys
  length-append [] ys = omega arith
  length-append (x ∷ xs) ys = omega (arith, length-append xs ys)

  get_elem?-append_one :
      (xs : List A) (x : A) (i : ℕ)
      → get_elem? (xs ++ x ∷ []) i ≡ (if i == length xs then some x else get_elem? xs i)
  get_elem?-append_one [] x zero = ground arith
  get_elem?-append_one [] x (suc i) = ground arith
  get_elem?-append_one (y ∷ xs) x zero = ground arith
  get_elem?-append_one (y ∷ xs) x (suc i) = ground (arith, get_elem?-append_one xs x i)

module _ (J : JsonLib) where
  open J use {Json, size, at, is_array}

  -- The elements of an array.
  pub record Elements (a : Json) (vs : List Json) : Type 0 where
    pub stays_array : is_array a ≡ true
    pub counted : size a ≡ length vs
    pub each : (i : ℕ) → i < length vs → at a i ≡ get_elem? vs i

  Elements-push :
      (a v a' : Json) (vs : List Json)
      → Elements a vs
      → Pushes J a v a'
      → Elements a' (vs ++ v ∷ [])
  Elements-push a v a' vs e p = record {
    stays_array = p.stays_array;
    counted = omega (arith, p.grown, e.counted, length-append vs (v ∷ []));
    each = λ i lt. ground (
      arith,
      p.elements i,
      e.counted,
      e.each i,
      get_elem?-append_one vs v i,
      length-append vs (v ∷ []),
    );
  }

module _ {J : JsonLib} (L : JsonLaws J) where
  open J use {Json, array, object, find, is_object, of_int, of_text, size, at}

  not_below_0 : (i : ℕ) → ¬ (i < 0)
  not_below_0 i lt = omega arith

  pub array-Elements : Elements J array []
  array-Elements = record {
    stays_array = L.array-is_array;
    counted = L.size-array;
    each = λ i lt. absurd (not_below_0 i lt);
  }

  pub push_each-Elements :
      {A : Type 0} (make : A → Result Json) (mk : A → Json) (made : (a : A) → make a ≡ ok (mk a))
      (a : Json) (vs : List Json) (xs : List A)
      → Elements J a vs
      → (a' : Json) × (push_each J make a xs ≡ ok a') × Elements J a' (vs ++ map mk xs)
  unfolding push_each
  push_each-Elements make mk made a vs [] e = (a, refl, rw (append-nil vs) e)
  push_each-Elements make mk made a vs (x ∷ xs) e =
      let (a₁, p) = L.push_back_lem a (mk x) e.stays_array in
      let (a', q, r) =
        push_each-Elements make mk made a₁ (vs ++ mk x ∷ []) xs
          (Elements-push J a (mk x) a₁ vs e p) in
      (a', rw (made x, p.pushed) q, rw (append_assoc vs (mk x ∷ []) (map mk xs)) at r)

  -- What the JSON of a property, of an update and of a module has under the keys that the page reads.
  pub record PropertyJson (p : Property) (j : Json) : Type 0 where
    pub is_obj : is_object j ≡ true
    pub type_at : find j (codes "type") ≡ some (of_int p.type)
    pub name_at : find j (codes "name") ≡ some (of_text p.name)
    pub value_at : find j (codes "value") ≡ some (of_text p.value)

  pub property_to_json-PropertyJson :
      (p : Property) → (j : Json) × (property_to_json J p ≡ ok j) × PropertyJson p j
  unfolding property_to_json text_eq
  property_to_json-PropertyJson p =
      let (j₁, e₁, p₁) = set_key-Puts L object (codes "type") (of_int p.type) L.object-is_object in
      let (j₂, e₂, p₂) = set_key-Puts L j₁ (codes "name") (of_text p.name) p₁.stays_object in
      let (j₃, e₃, p₃) = set_key-Puts L j₂ (codes "value") (of_text p.value) p₂.stays_object in
      let flag = of_int (bool_to_int J p.read_only) in
      let (j₄, e₄, p₄) = set_key-Puts L j₃ (codes "read_only") flag p₃.stays_object in
      (
        j₄,
        rw (e₁, e₂, e₃, e₄) refl,
        record {
          is_obj = p₄.stays_object;
          type_at =
              p₄.found (codes "type")
              ∙ p₃.found (codes "type")
              ∙ p₂.found (codes "type")
              ∙ p₁.found (codes "type");
          name_at = p₄.found (codes "name") ∙ p₃.found (codes "name") ∙ p₂.found (codes "name");
          value_at = p₄.found (codes "value") ∙ p₃.found (codes "value");
        },
      )

  pub record UpdateJson (u : ℤ × Text) (j : Json) : Type 0 where
    pub is_obj : is_object j ≡ true
    pub id_at : find j (codes "id") ≡ some (of_int u.0)
    pub value_at : find j (codes "value") ≡ some (of_text u.1)

  pub update_to_json-UpdateJson :
      (u : ℤ × Text) → (j : Json) × (update_to_json J u ≡ ok j) × UpdateJson u j
  unfolding update_to_json text_eq
  update_to_json-UpdateJson (id, value) =
      let (j₁, e₁, p₁) = set_key-Puts L object (codes "id") (of_int id) L.object-is_object in
      let (j₂, e₂, p₂) = set_key-Puts L j₁ (codes "value") (of_text value) p₁.stays_object in
      (
        j₂,
        rw (e₁, e₂) refl,
        record {
          is_obj = p₂.stays_object;
          id_at = p₂.found (codes "id") ∙ p₁.found (codes "id");
          value_at = p₂.found (codes "value");
        },
      )

  abbrev pub property_json : Property → Json
  property_json p = (property_to_json-PropertyJson p).0

  abbrev pub update_json : ℤ × Text → Json
  update_json u = (update_to_json-UpdateJson u).0

  pub record ModuleJson (m : Module) (j : Json) : Type 0 where
    pub is_obj : is_object j ≡ true
    pub id_at : find j (codes "id") ≡ some (of_int m.id)
    pub name_at : find j (codes "name") ≡ some (of_text m.name)
    pub properties : Json
    pub properties_at : find j (codes "properties") ≡ some properties
    pub elements : Elements J properties (map property_json m.properties)

  pub module_to_json-ModuleJson :
      (m : Module) → (j : Json) × (module_to_json J m ≡ ok j) × ModuleJson m j
  unfolding module_to_json text_eq
  module_to_json-ModuleJson m =
      let (j₁, e₁, p₁) = set_key-Puts L object (codes "id") (of_int m.id) L.object-is_object in
      let (j₂, e₂, p₂) = set_key-Puts L j₁ (codes "name") (of_text m.name) p₁.stays_object in
      let (a, made, els) =
        push_each-Elements (property_to_json J) property_json
          (λ p. (property_to_json-PropertyJson p).1) array [] m.properties array-Elements in
      let (j₃, e₃, p₃) = set_key-Puts L j₂ (codes "properties") a p₂.stays_object in
      (
        j₃,
        rw (e₁, e₂, made, e₃) refl,
        record {
          is_obj = p₃.stays_object;
          id_at = p₃.found (codes "id") ∙ p₂.found (codes "id") ∙ p₁.found (codes "id");
          name_at = p₃.found (codes "name") ∙ p₂.found (codes "name");
          properties = a;
          properties_at = p₃.found (codes "properties");
          elements = els;
        },
      )

  abbrev pub module_json : Module → Json
  module_json m = (module_to_json-ModuleJson m).0
