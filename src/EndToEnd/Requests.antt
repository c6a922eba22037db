-- ===== src/EndToEnd/Requests.antt =====
-- What the user of a page asks the host for: the list of the modules, and updates.
use sacs.Maps.{assign, find}
use sacs.State.{World, emit, post, process_js_request, ws_sent}
use sacs.Prelude.{
  List, Text, [], codes, false, map, ok, pos, refl, some, subst, text_eq, true, ℕ, ℤ, ◌++◌, ◌∷◌,
  ◌≡◌,
}
use sacs.Json.{JsonLaws, JsonLib}
use sacs.JsonMsg.{JsonMsg, detect_type, parse_msg}
use sacs.JsonMsg.Build.{empty_json}
use sacs.JsonMsg.RoundTrip.{Carries}
use sacs.Module.{Module}
use sacs.Module.Update.{Saved, non_negative}
use sacs.ModuleManager.{call_back, do_process_js_request}
use sacs.ModuleManager.Delivery.{Applies, pass_update-calls}
use sacs.ModuleManager.Loop.{enter, process_request, run_tasks}
use sacs.Page.{Page, PageModule, Widget}
use sacs.Page.Environment.{Browser, BrowserLaws}
use sacs.Page.Messages.{create_page_update, on_properties_activated, on_property_activated, send}
use sacs.Page.ToHost.{
  create_page_update-Carries, create_page_updates-Carries, entered, form, get_content-entered,
  scripts_apart,
}
use sacs.Page.Updates.{to_update}
use sacs.ServerImpl.Requests.{on_ws_client_message}
use sacs.ModuleManager.Answers.{do_process_js_request-req_apply}

module _ {J : JsonLib} (L : JsonLaws J) {B : Browser} (C : BrowserLaws J B) where
  non_negative-form : (us : List (ℕ × Text)) → non_negative (map (to_update L C) us) ≡ true
  non_negative-form [] = refl
  non_negative-form (u ∷ us) = non_negative-form us

  -- What the host does with a request to apply updates for a module with a callback.
  abbrev pub Applied :
      ℤ → ℕ → ℕ → List (ℤ × Text) → Text → JsonMsg J → Module → Module → World J → Type 0
  Applied id client f ups text msg m m' w =
      Saved m ups m'
      × (on_ws_client_message [] client false text w
          ≡ ok (record w {
            modules = assign id m' w.modules;
            posted = w.posted ++ process_js_request msg ∷ [];
            events = (w.events ++ call_back f id ups ∷ []) ++ ws_sent client (empty_json J) ∷ [];
          }))

  apply_request-Applied :
      (id : ℤ) (u : ℤ × Text) (us : List (ℤ × Text)) (client f : ℕ) (text : Text) (msg : JsonMsg J)
      (m : Module) (w : World J)
      → parse_msg J text ≡ ok (msg, true)
      → Carries L (codes "apply") id (u ∷ us) msg
      → non_negative (u ∷ us) ≡ true
      → w.different_thread ≡ true
      → find id w.modules ≡ some m
      → m.callback ≡ some f
      → (m' : Module) × Applied id client f (u ∷ us) text msg m m' w
  unfolding on_ws_client_message process_request run_tasks do_process_js_request emit post
      detect_type text_eq
  apply_request-Applied id u us client f text msg m w parsed c n d there cb =
      let v = enter (post (process_js_request msg) w) in
      let a : Applies L (codes "apply") id m (u ∷ us) msg v = record {
        carries = c;
        kind = refl;
        on_loop = refl;
        filed = there;
      } in
      let (m', saved, e) = pass_update-calls L a f cb n in
      let answered = do_process_js_request-req_apply msg v _ c.kind e in
      (m', (saved, rw (parsed, d, answered) refl))

  -- The apply button of a module on a page, whose scripts act on their own, with something entered:
  -- the page sends one text. When the host reads it off its loop and the loop comes to it at once,
  -- and has a module with that id, which has a callback, it saves what the user has entered, calls
  -- the callback once with it, each text with the place of its widget, in order, and answers the
  -- page with an empty object. Nothing else changes.
  pub apply_button_calls_back :
      (pm : PageModule B) (id : ℤ) (u : ℕ × Text) (us : List (ℕ × Text)) (client f : ℕ) (m : Module)
      (w : World J) (p : Page B)
      → pm.id ≡ B.number id
      → scripts_apart L C pm.properties ≡ true
      → form L C 0 pm.properties ≡ u ∷ us
      → w.different_thread ≡ true
      → find id w.modules ≡ some m
      → m.callback ≡ some f
      → (text : Text) × (msg : JsonMsg J) × (m' : Module) × (on_properties_activated pm p
          ≡ ok (send text p))
        × Applied id client f (map (to_update L C) (u ∷ us)) text msg m m' w
  unfolding on_properties_activated
  apply_button_calls_back pm id u us client f m w p own apart entered d there cb =
      let (text, msg, made, parsed, c) = create_page_updates-Carries L C pm id own apart in
      let c' : Carries L (codes "apply") id (map (to_update L C) (u ∷ us)) msg =
        subst (λ xs. Carries L (codes "apply") id (map (to_update L C) xs) msg) entered c in
      let (m', done) =
        apply_request-Applied id (to_update L C u) (map (to_update L C) us) client f text msg m w
          parsed c' (non_negative-form (u ∷ us)) d there cb in
      (text, msg, m', rw made refl, done)

  -- A widget that acts on its own, and holds a text or a switch, in a module of the page: the page
  -- sends one text. When the host reads it off its loop and the loop comes to it at once, and has a
  -- module with that id, which has a callback, it saves what the user has entered and calls the
  -- callback once with that alone, under the place of the widget. Nothing else changes.
  widget_calls_back :
      (pm : PageModule B) (id : ℤ) (i : ℕ) (widget : Widget B) (s : Text) (client f : ℕ)
      (m : Module) (w : World J) (p : Page B)
      → pm.id ≡ B.number id
      → entered L C widget.content ≡ some s
      → w.different_thread ≡ true
      → find id w.modules ≡ some m
      → m.callback ≡ some f
      → (text : Text) × (msg : JsonMsg J) × (m' : Module) × (on_property_activated pm i widget p
          ≡ ok (send text p))
        × Applied id client f ((pos i, s) ∷ []) text msg m m' w
  unfolding on_property_activated
  widget_calls_back pm id i widget s client f m w p own holds d there cb =
      let (msg, parsed, c) = create_page_update-Carries L C id i s in
      let text = create_page_update B (B.number id) i (B.string s) in
      let (m', done) =
        apply_request-Applied id (pos i, s) [] client f text msg m w parsed c refl d there cb in
      (text, msg, m', rw (get_content-entered L C widget.content s holds, own) refl, done)
