-- ===== src/Page/FromHost.antt =====
-- What the page does with the texts that JsonMsg.cpp builds, said without JSON.
use sacs.Prelude.{Text, [], codes, map, ok, refl, text_eq, ℤ, ◌∙◌, ◌≡◌}
use sacs.Json.{JsonLaws, JsonLib}
use sacs.JsonMsg.Build.{
  create_module_added, create_module_list, create_module_removed, dump_json, module_to_json,
}
use sacs.JsonMsg.Objects.{set_key-Puts}
use sacs.Maps.{Map}
use sacs.Module.{Module}
use sacs.Page.{Page}
use sacs.Page.Environment.{Browser, BrowserLaws}
use sacs.Page.Messages.{crate_module, delete_module, for_each, on_message}
use sacs.Page.Reading.{array-Elements, module_json, module_to_json-ModuleJson, push_each-Elements}
use sacs.Page.Rounds.{
  Elements-each_of, crate_module-module, for_each-json, member_of-int, parse-type,
}
use sacs.Page.Shown.{show_module}

module _ {J : JsonLib} (L : JsonLaws J) {B : Browser} (C : BrowserLaws J B) where
  open J use {Json, array, object, find, is_object, of_int, of_text}

  -- The announcement of a module, where it can be dumped, makes the page show the module: each
  -- property as the widget of its type, the button of the module, and the module itself if none is
  -- selected.
  pub on_message-module_added :
      (m : Module) (s : Text) (p : Page B)
      → create_module_added J m ≡ ok s
      → on_message s p ≡ show_module m p
  unfolding create_module_added on_message text_eq
  on_message-module_added m s p h =
      let t = codes "module_added" in
      let (j₁, e₁, p₁) = set_key-Puts L object (codes "type") (of_text t) L.object-is_object in
      let (jm, e, _) = module_to_json-ModuleJson L m in
      let (j₂, e₂, p₂) = set_key-Puts L j₁ (codes "module") jm p₁.stays_object in
      let dumped : dump_json J j₂ ≡ ok s = rw (e₁, e, e₂) at h in
      let (parsed, typed) =
        parse-type L C j₂ s t dumped p₂.stays_object
          (p₂.found (codes "type") ∙ p₁.found (codes "type")) in
      rw
        (
          parsed,
          typed,
          C.loosely-string t (codes "property_update"),
          C.loosely-string t (codes "module_added"),
          C.get-found j₂ jm (codes "module") p₂.stays_object (p₂.found (codes "module")),
        )
        (crate_module-module L C m p)

  -- The notice that a module is gone, where it can be dumped, makes the page delete the module with
  -- that id.
  pub on_message-module_removed :
      (id : ℤ) (s : Text) (p : Page B)
      → create_module_removed J id ≡ ok s
      → on_message s p ≡ delete_module (B.number id) p
  unfolding create_module_removed on_message text_eq
  on_message-module_removed id s p h =
      let t = codes "module_removed" in
      let (j₁, e₁, p₁) = set_key-Puts L object (codes "type") (of_text t) L.object-is_object in
      let (j₂, e₂, p₂) = set_key-Puts L j₁ (codes "id") (of_int id) p₁.stays_object in
      let dumped : dump_json J j₂ ≡ ok s = rw (e₁, e₂) at h in
      let (parsed, typed) =
        parse-type L C j₂ s t dumped p₂.stays_object
          (p₂.found (codes "type") ∙ p₁.found (codes "type")) in
      rw
        (
          parsed,
          typed,
          C.loosely-string t (codes "property_update"),
          C.loosely-string t (codes "module_added"),
          C.loosely-string t (codes "module_removed"),
          member_of-int L C j₂ (codes "id") id p₂.stays_object (p₂.found (codes "id")),
        )
        refl

  -- The answer to a request to load, where it can be dumped, makes the page show the modules of the
  -- registry one behind another, in the order of their ids.
  pub on_message-module_list :
      (modules : Map Module) (s : Text) (p : Page B)
      → create_module_list J modules ≡ ok s
      → on_message s p ≡ for_each show_module (map (λ (entry : ℤ × Module). entry.1) modules) p
  unfolding create_module_list on_message text_eq
  on_message-module_list modules s p h =
      let t = codes "module_list" in
      let ms = map (λ (entry : ℤ × Module). entry.1) modules in
      let (j₁, e₁, p₁) = set_key-Puts L object (codes "type") (of_text t) L.object-is_object in
      let (a, made, els) =
        push_each-Elements L (module_to_json J) (module_json L)
          (λ m. (module_to_json-ModuleJson L m).1) array [] ms (array-Elements L) in
      let (j₂, e₂, p₂) = set_key-Puts L j₁ (codes "modules") a p₁.stays_object in
      let dumped : dump_json J j₂ ≡ ok s = rw (e₁, made, e₂) at h in
      let (parsed, typed) =
        parse-type L C j₂ s t dumped p₂.stays_object
          (p₂.found (codes "type") ∙ p₁.found (codes "type")) in
      rw
        (
          parsed,
          typed,
          C.loosely-string t (codes "property_update"),
          C.loosely-string t (codes "module_added"),
          C.loosely-string t (codes "module_removed"),
          C.loosely-string t (codes "module_list"),
          C.get-found j₂ a (codes "modules") p₂.stays_object (p₂.found (codes "modules")),
          Elements-each_of L C a (map (module_json L) ms) els,
        )
        (for_each-json L C (module_json L) crate_module show_module (crate_module-module L C) ms p)
