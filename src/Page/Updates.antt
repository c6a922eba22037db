-- ===== src/Page/Updates.antt =====
-- How a process reads a request of a page to apply updates.
use sacs.Prelude.{
  List, Text, [], ap, arith, codes, get_elem?, length, map, none, ok, pos, refl, some, suc, text_eq,
  true, ℕ, ℤ, ◌+◌, ◌∙◌, ◌∷◌, ◌≡◌,
}
use sacs.Json.{JsonLaws, JsonLib}
use sacs.JsonMsg.{JsonMsg, detect_type, parse_msg, read_each, read_update}
use sacs.JsonMsg.Objects.{value_to_int-of_int, value_to_string-of_text}
use sacs.JsonMsg.RoundTrip.{Carries}
use sacs.Page.Environment.{Browser, BrowserLaws}
use sacs.Page.Messages.{apply_request, update_value}

module _ {J : JsonLib} (L : JsonLaws J) {B : Browser} (C : BrowserLaws J B) where
  open J use {Json, find, is_object, of_int, of_text, size, at}
  open B use {Value}

  head_number :
      (k : Text) (n : ℤ) (fs : List (Text × Value))
      → find (C.object_of fs) k ≡ none
      → find (C.object_of ((k, B.number n) ∷ fs)) k ≡ some (of_int n)
  head_number k n fs h = C.object_of-head k (B.number n) fs (of_int n) (C.to_json-number n) h

  pub head_string :
      (k s : Text) (fs : List (Text × Value))
      → find (C.object_of fs) k ≡ none
      → find (C.object_of ((k, B.string s) ∷ fs)) k ≡ some (of_text s)
  head_string k s fs h = C.object_of-head k (B.string s) fs (of_text s) (C.to_json-string s) h

  abbrev update_fields : ℕ × Text → List (Text × Value)
  update_fields (i, v) = (codes "id", B.number (pos i)) ∷ (codes "value", B.string v) ∷ []

  abbrev pub to_update : ℕ × Text → ℤ × Text
  to_update (i, v) = (pos i, v)

  abbrev pub update_of : ℕ × Text → Value
  update_of (i, v) = update_value B i (B.string v)

  read_update-fields :
      (u : ℕ × Text) → read_update J (C.object_of (update_fields u)) ≡ ok (to_update u)
  unfolding read_update text_eq
  read_update-fields (i, v) =
      let value : List (Text × Value) = (codes "value", B.string v) ∷ [] in
      let j = C.object_of (update_fields (i, v)) in
      let no_id : find (C.object_of value) (codes "id") ≡ none =
        C.object_of-skip (codes "value") (codes "id") (B.string v) [] refl
        ∙ C.object_of-empty (codes "id") in
      rw
        (
          value_to_int-of_int L j (codes "id") (pos i)
              (head_number (codes "id") (pos i) value no_id),
          value_to_string-of_text L j (codes "value") v (
              C.object_of-skip (codes "id") (codes "value") (B.number (pos i)) value refl
              ∙ head_string (codes "value") v [] (C.object_of-empty (codes "value"))),
        )
        refl

  to_json-updates :
      (us : List (ℕ × Text))
      → map C.to_json (map update_of us) ≡ map some (map (λ u. C.object_of (update_fields u)) us)
  to_json-updates [] = refl
  to_json-updates ((i, v) ∷ us) =
      rw (C.to_json-literal (update_fields (i, v)), to_json-updates us) refl

  read_updates :
      (a : Json) (off : ℕ) (us : List (ℕ × Text))
      → ((i : ℕ) → at a (off + i) ≡ get_elem? (map (λ u. C.object_of (update_fields u)) us) i)
      → read_each J (read_update J) (length us) off a ≡ ok (map to_update us)
  unfolding read_each
  read_updates a off [] h = refl
  read_updates a off (u ∷ us) h =
      let at_0 : off + 0 ≡ off = omega arith in
      let shift : (i : ℕ) → off + suc i ≡ (off + 1) + i = λ i. omega arith in
      let first : at a off ≡ some (C.object_of (update_fields u)) = rw at_0 at (h 0) in
      let later : (i : ℕ)
          → at a ((off + 1) + i) ≡ get_elem? (map (λ u. C.object_of (update_fields u)) us) i =
        λ i. rw (shift i) at (h (suc i)) in
      rw (first, read_update-fields u, read_updates a (off + 1) us later) refl

  length-objects :
      (us : List (ℕ × Text)) → length (map (λ u. C.object_of (update_fields u)) us) ≡ length us
  length-objects [] = refl
  length-objects (u ∷ us) = ap suc (length-objects us)

  -- A request to apply updates, as the processes read it.
  pub apply_request-Carries :
      (id : ℤ) (us : List (ℕ × Text))
      → (msg : JsonMsg J) × (parse_msg J (apply_request B (B.number id) (map update_of us))
          ≡ ok (msg, true))
        × Carries L (codes "apply") id (map to_update us) msg
  unfolding parse_msg text_eq
  apply_request-Carries id us =
      let (a, made, counted, each) =
        C.to_json-array (map update_of us) (map (λ u. C.object_of (update_fields u)) us)
          (to_json-updates us) in
      let 0_add : (i : ℕ) → 0 + i ≡ i = λ i. omega arith in
      let list : Value = B.array_of (map update_of us) in
      let f₁ : List (Text × Value) = (codes "properties", list) ∷ [] in
      let f₂ : List (Text × Value) = (codes "id", B.number id) ∷ f₁ in
      let f₃ : List (Text × Value) = (codes "type", B.string (codes "apply")) ∷ f₂ in
      let j = C.object_of f₃ in
      let no_id : find (C.object_of f₁) (codes "id") ≡ none =
        C.object_of-skip (codes "properties") (codes "id") list [] refl
        ∙ C.object_of-empty (codes "id") in
      let no_type : find (C.object_of f₂) (codes "type") ≡ none =
        C.object_of-skip (codes "id") (codes "type") (B.number id) f₁ refl
        ∙ C.object_of-skip (codes "properties") (codes "type") list [] refl
        ∙ C.object_of-empty (codes "type") in
      let typed : find j (codes "type") ≡ some (of_text (codes "apply")) =
        head_string (codes "type") (codes "apply") f₂ no_type in
      (
        record { json = j; is_valid = true; type = detect_type (codes "apply") },
        rw
            (
              C.parse-stringify (B.literal f₃) j (C.to_json-literal f₃),
              parse_msg,
              value_to_string-of_text L j (codes "type") (codes "apply") typed,
            )
            refl,
        record {
          valid = refl;
          kind = refl;
          is_obj = C.object_of-is_object f₃;
          type_at = typed;
          id_at =
              C.object_of-skip (codes "type") (codes "id") (B.string (codes "apply")) f₂ refl
              ∙ head_number (codes "id") id f₁ no_id;
          properties = a;
          properties_at =
              C.object_of-skip (codes "type") (codes "properties") (B.string (codes "apply")) f₂
                refl
              ∙ C.object_of-skip (codes "id") (codes "properties") (B.number id) f₁ refl
              ∙ C.object_of-head (codes "properties") list [] a made
                  (C.object_of-empty (codes "properties"));
          reads =
              rw (counted, length-objects us) (read_updates a 0 us (λ i. rw (0_add i) (each i)));
        },
      )
