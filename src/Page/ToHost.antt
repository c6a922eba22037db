-- ===== src/Page/ToHost.antt =====
-- What a process reads from the texts that the page sends.
use sacs.Prelude.{
  Bool, Bool-cases, List, Option, Option-cases, Text, [], codes, false, inl, inr, map, none, ok,
  pos, refl, some, text_eq, true, ℕ, ℤ, ◌&&◌, ◌+◌, ◌∷◌, ◌≡◌,
}
use sacs.Json.{JsonLaws, JsonLib}
use sacs.JsonMsg.{JsonMsg, detect_type, parse_msg, req_load}
use sacs.JsonMsg.Objects.{value_to_string-of_text}
use sacs.JsonMsg.RoundTrip.{Carries}
use sacs.Page.{
  Content, PageModule, Widget, area, checked, get_content, history, line, pressed, scripted,
}
use sacs.Page.Environment.{Browser, BrowserLaws}
use sacs.Page.Messages.{
  apply_request, create_load_modules, create_page_update, create_page_updates, properties_info,
}
use sacs.Page.Updates.{apply_request-Carries, head_string, to_update, update_of}

module _ {J : JsonLib} (L : JsonLaws J) {B : Browser} (C : BrowserLaws J B) where
  open J use {find, of_text}
  open B use {Value}

  -- A request to load the modules is read as such by a process.
  pub create_load_modules-req_load :
      (msg : JsonMsg J) × (parse_msg J (create_load_modules B) ≡ ok (msg, true))
      × (msg.type ≡ req_load)
  unfolding create_load_modules parse_msg detect_type text_eq
  create_load_modules-req_load =
      let f : List (Text × Value) = (codes "type", B.string (codes "load")) ∷ [] in
      let j = C.object_of f in
      let typed : find j (codes "type") ≡ some (of_text (codes "load")) =
        head_string L C (codes "type") (codes "load") [] (C.object_of-empty (codes "type")) in
      (
        record { json = j; is_valid = true; type = req_load },
        rw
            (
              C.parse-stringify (B.literal f) j (C.to_json-literal f),
              parse_msg,
              value_to_string-of_text L j (codes "type") (codes "load") typed,
            )
            refl,
        refl,
      )

  -- What a user has entered in a widget, where it is one that holds a text or a switch.
  abbrev pub entered : Content B → Option Text
  entered pressed = some (codes "1")
  entered (checked true) = some (codes "1")
  entered (checked false) = some (codes "0")
  entered (line s) = some s
  entered (area s) = some s
  entered (history s) = some s
  entered (scripted object) = none

  pub get_content-entered :
      (c : Content B) (s : Text) → entered c ≡ some s → get_content c ≡ ok (B.string s)
  unfolding get_content
  get_content-entered pressed s h = cc
  get_content-entered (checked true) s h = cc
  get_content-entered (checked false) s h = cc
  get_content-entered (line t) s h = cc
  get_content-entered (area t) s h = cc
  get_content-entered (history t) s h = cc
  get_content-entered (scripted object) s h = cc

  -- A widget that acts on its own and holds a text or a switch: the one update that it sends is read
  -- by a process as a request to apply that text at the place of the widget.
  pub create_page_update-Carries :
      (id : ℤ) (i : ℕ) (s : Text)
      → (msg : JsonMsg J) × (parse_msg J (create_page_update B (B.number id) i (B.string s))
          ≡ ok (msg, true))
        × Carries L (codes "apply") id ((pos i, s) ∷ []) msg
  unfolding create_page_update
  create_page_update-Carries id i s = apply_request-Carries L C id ((i, s) ∷ [])

  abbrev add_own : Bool → ℕ → Option Text → List (ℕ × Text) → List (ℕ × Text)
  add_own false i (some s) us = (i, s) ∷ us
  add_own _ i o us = us

  -- What the user has entered in the widgets that wait for the apply button, from the place `i` on.
  abbrev pub form : ℕ → List (Widget B) → List (ℕ × Text)
  form i [] = []
  form i (w ∷ ws) = add_own w.is_independent i (entered w.content) (form (i + 1) ws)

  abbrev alone_or_text : Bool → Option Text → Bool
  alone_or_text false none = false
  alone_or_text _ o = true

  -- A widget with a script acts on its own.
  abbrev pub scripts_apart : List (Widget B) → Bool
  scripts_apart [] = true
  scripts_apart (w ∷ ws) = alone_or_text w.is_independent (entered w.content) && scripts_apart ws

  properties_info-form :
      (i : ℕ) (ws : List (Widget B))
      → scripts_apart ws ≡ true
      → properties_info i ws ≡ ok (map (update_of L C) (form i ws))
  unfolding properties_info
  properties_info-form i [] h = refl
  properties_info-form i (w ∷ ws) h = elim (Bool-cases w.is_independent) [
    | inl e ↦ rw e (properties_info-form (i + 1) ws (rw e at h))
    | inr e ↦ elim (Option-cases (entered w.content)) [
      | inl none_entered ↦ cc (rw (e, none_entered) at h)
      | inr (s, entered_s) ↦
          rw
            (
              e,
              entered_s,
              get_content-entered w.content s entered_s,
              properties_info-form (i + 1) ws (rw (e, entered_s) at h),
            )
            refl
    ]
  ]

  -- The apply button of a module whose scripts act on their own: the text that it sends is read by a
  -- process as a request to apply what the user has entered in the widgets that wait for the
  -- button, each at the place of its widget, in order.
  pub create_page_updates-Carries :
      (m : PageModule B) (id : ℤ)
      → m.id ≡ B.number id
      → scripts_apart m.properties ≡ true
      → (text : Text) × (msg : JsonMsg J) × (create_page_updates m ≡ ok text)
        × (parse_msg J text ≡ ok (msg, true))
        × Carries L (codes "apply") id (map (to_update L C) (form 0 m.properties)) msg
  unfolding create_page_updates
  create_page_updates-Carries m id own alone =
      let us = form 0 m.properties in
      let (msg, parsed, c) = apply_request-Carries L C id us in
      (
        apply_request B (B.number id) (map (update_of L C) us),
        msg,
        rw (own, properties_info-form 0 m.properties alone) refl,
        parsed,
        c,
      )
