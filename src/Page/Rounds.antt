-- ===== src/Page/Rounds.antt =====
-- The rounds of the page over values that JsonMsg.cpp built.
use sacs.Prelude.{>>=-congr, List, Result, Text, [], codes, map, ok, refl, some, true, ℤ, ◌∷◌, ◌≡◌}
use sacs.Json.{JsonLaws, JsonLib}
use sacs.JsonMsg.Build.{dump_json}
use sacs.JsonMsg.RoundTrip.{dump_json-ok}
use sacs.Module.{Module, Property}
use sacs.Page.{Page, PageModule}
use sacs.Page.Environment.{Browser, BrowserLaws}
use sacs.Page.Messages.{add_from_json, crate_module, for_each, member_of, set_from_json, unfinished}
use sacs.Page.Reading.{
  Elements, module_json, module_to_json-ModuleJson, property_json, property_to_json-PropertyJson,
  update_json, update_to_json-UpdateJson,
}
use sacs.Page.Shown.{show_module, show_property, show_update}

module _ {J : JsonLib} (L : JsonLaws J) {B : Browser} (C : BrowserLaws J B) where
  open J use {Json, array, object, find, is_object, of_int, of_text}
  open B use {Value}

  member_of-text :
      (j : Json) (k s : Text)
      → is_object j ≡ true
      → find j k ≡ some (of_text s)
      → member_of B (C.of_json j) k ≡ ok (B.string s)
  member_of-text j k s h e = rw (C.get-found j (of_text s) k h e, C.of_json-text s) refl

  pub member_of-int :
      (j : Json) (k : Text) (n : ℤ)
      → is_object j ≡ true
      → find j k ≡ some (of_int n)
      → member_of B (C.of_json j) k ≡ ok (B.number n)
  member_of-int j k n h e = rw (C.get-found j (of_int n) k h e, C.of_json-int n) refl

  pub for_each-json :
      {A : Type 0} {S : Type 0} (mk : A → Json) (round : Value → S → Result S)
      (direct : A → S → Result S) (same : (a : A) (s : S) → round (C.of_json (mk a)) s ≡ direct a s)
      (xs : List A) (s : S)
      → for_each round (map C.of_json (map mk xs)) s ≡ for_each direct xs s
  unfolding for_each
  for_each-json mk round direct same [] s = refl
  for_each-json mk round direct same (x ∷ xs) s = rw (same x s) (
      >>=-congr (direct x s) (for_each round (map C.of_json (map mk xs))) (for_each direct xs)
        (for_each-json mk round direct same xs))

  add_from_json-property :
      (p : Property) (m : PageModule B)
      → add_from_json (C.of_json (property_json L p)) m ≡ show_property p m
  unfolding add_from_json show_property
  add_from_json-property p m =
      let (j, _, f) = property_to_json-PropertyJson L p in
      rw
        (
          member_of-int j (codes "type") p.type f.is_obj f.type_at,
          member_of-text j (codes "name") p.name f.is_obj f.name_at,
          member_of-text j (codes "value") p.value f.is_obj f.value_at,
        )
        refl

  pub set_from_json-update :
      (u : ℤ × Text) (m : PageModule B)
      → set_from_json (C.of_json (update_json L u)) m ≡ show_update u m
  unfolding set_from_json show_update
  set_from_json-update u m =
      let (j, _, f) = update_to_json-UpdateJson L u in
      rw
        (
          member_of-int j (codes "id") u.0 f.is_obj f.id_at,
          member_of-text j (codes "value") u.1 f.is_obj f.value_at,
        )
        refl

  pub Elements-each_of :
      (a : Json) (vs : List Json)
      → Elements J a vs
      → B.each_of (C.of_json a) ≡ some (map C.of_json vs)
  Elements-each_of a vs e = C.each_of-array a vs e.stays_array e.counted e.each

  pub crate_module-module :
      (m : Module) (p : Page B) → crate_module (C.of_json (module_json L m)) p ≡ show_module m p
  unfolding crate_module show_module
  crate_module-module m p =
      let (j, _, f) = module_to_json-ModuleJson L m in
      rw
        (
          member_of-int j (codes "id") m.id f.is_obj f.id_at,
          member_of-text j (codes "name") m.name f.is_obj f.name_at,
          C.get-found j f.properties (codes "properties") f.is_obj f.properties_at,
          Elements-each_of f.properties (map (property_json L) m.properties) f.elements,
          for_each-json (property_json L) add_from_json show_property add_from_json-property
              m.properties (unfinished (B.number m.id) (B.string m.name) p),
        )
        refl

  pub parse-type :
      (j : Json) (s t : Text)
      → dump_json J j ≡ ok s
      → is_object j ≡ true
      → find j (codes "type") ≡ some (of_text t)
      → (B.parse s ≡ some (C.of_json j))
        × (member_of B (C.of_json j) (codes "type") ≡ ok (B.string t))
  parse-type j s t d h e =
      (C.parse-dump j s (dump_json-ok L j s d), member_of-text j (codes "type") t h e)
