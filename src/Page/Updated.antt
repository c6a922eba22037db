-- ===== src/Page/Updated.antt =====
-- What the page does with updates that the host sends, its own and those of another process.
use sacs.Prelude.{
  List, Option, Result, Text, [], arith, codes, map, none, ok, or_throw, refl, some, text_eq, true,
  type_error, ℤ, ◌>>=◌, ◌∙◌, ◌≡◌,
}
use sacs.Json.{JsonLaws, JsonLib}
use sacs.JsonMsg.Build.{create_property_updated, dump_json, update_to_json}
use sacs.JsonMsg.Objects.{set_key-Puts}
use sacs.Page.{Page, PageModule, get_module_by_id, set_module}
use sacs.Page.Environment.{Browser, BrowserLaws}
use sacs.Page.Messages.{for_each, member_of, on_message, set_from_json, set_module_poperties}
use sacs.Page.Reading.{
  Elements, array-Elements, push_each-Elements, update_json, update_to_json-UpdateJson,
}
use sacs.Page.Rounds.{
  Elements-each_of, for_each-json, member_of-int, parse-type, set_from_json-update,
}
use sacs.Page.Shown.{show_update, show_updates}
use sacs.JsonMsg.{JsonMsg, parse_msg, set_msg_id}
use sacs.JsonMsg.RoundTrip.{dump_json-ok, parse_msg-dump}

module _ {J : JsonLib} (L : JsonLaws J) {B : Browser} (C : BrowserLaws J B) where
  open J use {Json, array, object, find, is_object, of_int, of_text}

  -- A message with updates, built here or passed on.
  record UpdatesJson (id : ℤ) (us : List (ℤ × Text)) (j : Json) : Type 0 where
    is_obj : is_object j ≡ true
    type_at : find j (codes "type") ≡ some (of_text (codes "property_update"))
    id_at : find j (codes "id") ≡ some (of_int id)
    properties : Json
    properties_at : find j (codes "properties") ≡ some properties
    elements : Elements J properties (map (update_json L) us)

  create_property_updated-UpdatesJson :
      (id : ℤ) (us : List (ℤ × Text)) (s : Text)
      → create_property_updated J id us ≡ ok s
      → (j : Json) × (dump_json J j ≡ ok s) × UpdatesJson id us j
  unfolding create_property_updated text_eq
  create_property_updated-UpdatesJson id us s h =
      let t = codes "property_update" in
      let (j₁, e₁, p₁) = set_key-Puts L object (codes "type") (of_text t) L.object-is_object in
      let (j₂, e₂, p₂) = set_key-Puts L j₁ (codes "id") (of_int id) p₁.stays_object in
      let (a, made, els) =
        push_each-Elements L (update_to_json J) (update_json L)
          (λ u. (update_to_json-UpdateJson L u).1) array [] us (array-Elements L) in
      let (j₃, e₃, p₃) = set_key-Puts L j₂ (codes "properties") a p₂.stays_object in
      (
        j₃,
        rw (e₁, e₂, made, e₃) at h,
        record {
          is_obj = p₃.stays_object;
          type_at = p₃.found (codes "type") ∙ p₂.found (codes "type") ∙ p₁.found (codes "type");
          id_at = p₃.found (codes "id") ∙ p₂.found (codes "id");
          properties = a;
          properties_at = p₃.found (codes "properties");
          elements = els;
        },
      )

  on_message-UpdatesJson :
      (id : ℤ) (us : List (ℤ × Text)) (j : Json) (s : Text) (p : Page B)
      → dump_json J j ≡ ok s
      → UpdatesJson id us j
      → on_message s p ≡ show_updates id us p
  unfolding on_message set_module_poperties show_updates text_eq
  on_message-UpdatesJson id us j s p dumped f =
      let t = codes "property_update" in
      let (parsed, typed) = parse-type L C j s t dumped f.is_obj f.type_at in
      rw
        (
          parsed,
          typed,
          C.loosely-string t (codes "property_update"),
          member_of-int L C j (codes "id") id f.is_obj f.id_at,
        )
        (set_updates j f.properties f.is_obj f.properties_at f.elements
          (get_module_by_id (B.number id) p.modules))
    where
      set_updates :
          (j a : Json)
          → is_object j ≡ true
          → find j (codes "properties") ≡ some a
          → Elements J a (map (update_json L) us)
          → (o : Option (PageModule B))
          → ◌≡◌ {A = Result (Page B)}
              (elim o [
                | none ↦ ok p
                | some m ↦ (do
                  properties ← member_of B (C.of_json j) (codes "properties")
                  vs ← or_throw type_error (B.each_of properties)
                  m' ← for_each set_from_json vs m
                  ok (record p { modules = set_module (B.number id) m' p.modules }))
              ])
              (elim o [
                | none ↦ ok p
                | some m ↦ (do
                  m' ← for_each show_update us m
                  ok (record p { modules = set_module (B.number id) m' p.modules }))
              ])
      set_updates j a h e els none = refl
      set_updates j a h e els (some m) =
          rw
            (
              C.get-found j a (codes "properties") h e,
              Elements-each_of L C a (map (update_json L) us) els,
              for_each-json L C (update_json L) set_from_json show_update (set_from_json-update L C)
                  us m,
            )
            refl

  -- The message with updates, where it can be dumped, makes the page set the widgets at the indices
  -- of the updates, in their order; where the page has no module with that id it does nothing.
  pub on_message-property_updated :
      (id : ℤ) (us : List (ℤ × Text)) (s : Text) (p : Page B)
      → create_property_updated J id us ≡ ok s
      → on_message s p ≡ show_updates id us p
  on_message-property_updated id us s p h =
      let (j, dumped, f) = create_property_updated-UpdatesJson id us s h in
      on_message-UpdatesJson id us j s p dumped f

  -- So does such a message of another process, when the host has set the id of the module to its own.
  pub on_message-relayed :
      (remote_id id : ℤ) (us : List (ℤ × Text)) (s text : Text) (msg msg' : JsonMsg J) (p : Page B)
      → create_property_updated J remote_id us ≡ ok s
      → parse_msg J s ≡ ok (msg, true)
      → set_msg_id J msg id ≡ ok msg'
      → J.dump msg'.json ≡ some text
      → on_message text p ≡ show_updates id us p
  unfolding set_msg_id dump_json text_eq
  on_message-relayed remote_id id us s text msg msg' p made parsed set_to dumped =
      let t = codes "property_update" in
      let (j, first, f) = create_property_updated-UpdatesJson remote_id us s made in
      let read = parse_msg-dump L j s t (dump_json-ok L j s first) f.type_at in
      let (j', q) = L.put_lem j (codes "id") (of_int id) f.is_obj in
      let same : msg.json ≡ j = cc in
      let same' : msg'.json ≡ j' = ground (arith, same, q.made) in
      on_message-UpdatesJson id us j' text p (rw (← same', dumped) refl) (record {
        is_obj = q.stays_object;
        type_at = q.found (codes "type") ∙ f.type_at;
        id_at = q.found (codes "id");
        properties = f.properties;
        properties_at = q.found (codes "properties") ∙ f.properties_at;
        elements = f.elements;
      })
