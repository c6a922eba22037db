-- ===== src/EndToEnd/Pages.antt =====
-- The host and a page that listens to it.
use sacs.ServerImpl.Listeners.{copies, living, living-living}
use sacs.Maps.{Map, assign, erase, find, insert-last}
use sacs.State.{Event, World}
use sacs.Prelude.{
  >>=-eq-ok, List, Result, Text, [], append-nil, append_assoc, arith, false, if-false, ltb_ℤ_irrefl,
  ok, ok-injective, pos, refl, some, subst, sym, true, ℕ, ℤ, ◌++◌, ◌>>=◌, ◌∙◌, ◌∷◌, ◌≡◌,
}
use sacs.Json.{JsonLaws, JsonLib}
use sacs.JsonMsg.Build.{create_module_removed, create_property_updated}
use sacs.Module.{Module, set_id, set_property_values}
use sacs.ModuleManager.{do_register_module, save_list, unregister, update_properties}
use sacs.ModuleManager.Frame.{handle_msg-SameRegistry}
use sacs.ModuleManager.Registry.{
  SameRegistry-Registered, add_entry, do_register_module-Registers, do_register_module-ok, fresh,
  save_list-Registered, unregister-Registered,
}
use sacs.Page.{Page}
use sacs.Page.Environment.{Browser, BrowserLaws}
use sacs.Page.FromHost.{on_message-module_added, on_message-module_removed}
use sacs.Page.Updated.{on_message-property_updated}
use sacs.Page.Messages.{on_message}
use sacs.Page.Mirror.{Mirrors}
use sacs.Page.Mirror.Steps.{delete_module-Mirrors, show_module-Mirrors, show_updates-Mirrors}
use sacs.Page.Mirror.Widgets.{can_build}
use sacs.Page.Mirror.Updates.{can_show, types_of}
use sacs.EndToEnd.Hosting.{
  HostRun, HostStep, Hosting, Sends, done, first, handle_msg-Sends, registers, unregisters, updates,
}

-- One copy of each text for each of the listeners.
abbrev pub broadcast : List Text → Map ℕ → List Event
broadcast [] listeners = []
broadcast (text ∷ texts) listeners = copies text listeners ++ broadcast texts listeners

module _ {B : Browser} where
  -- A page that handles texts in order.
  unfoldable pub on_messages : List Text → Page B → Result (Page B)
  on_messages [] p = ok p
  on_messages (text ∷ texts) p = do p' ← on_message text p; on_messages texts p'

module _ {J : JsonLib} (L : JsonLaws J) {B : Browser} (C : BrowserLaws J B) where
  -- A page that shows the registry shows it behind the text of a step.
  Follows : Map ℕ → World J → World J → Page B → Type 0
  Follows listeners w w' p =
      (text : Text) × (p' : Page B) × Sends text listeners w'.modules w w'
      × (on_message text p ≡ ok p')
      × Mirrors B w'.modules p'

  registers_followed :
      (listeners : Map ℕ) (w w' : World J) (p : Page B) (m : Module) {id : ℤ}
      → Hosting listeners w
      → Mirrors B w.modules p
      → can_build B m.properties ≡ true
      → do_register_module m w ≡ ok (id, w')
      → Follows listeners w w' p
  unfolding add_entry set_id Follows
  registers_followed listeners w w' p m host s h e =
      let r = host.registered in
      let m' = set_id m (pos w.id_counter) in
      let (text, made, sent, _) = do_register_module-ok m w e in
      let r' = (do_register_module-Registers m w r e).registered in
      let said =
        handle_msg-Sends text listeners (add_entry w m) w w' host.on_loop host.initialized
          host.pages refl refl sent r' in
      let last : (add_entry w m).modules ≡ w.modules ++ (pos w.id_counter, m') ∷ [] =
        insert-last (pos w.id_counter) m' w.modules r.sorted r.below in
      let (p', shown, s') =
        show_module-Mirrors C m' w.modules p s
          (fresh w r (pos w.id_counter) (ltb_ℤ_irrefl (pos w.id_counter) (pos 0))) h in
      (
        text,
        p',
        record { filed = refl; sent = said.sent; hosting = said.hosting; net = said.net },
        on_message-module_added L C m' text p made ∙ shown,
        subst (λ ms. Mirrors B ms p') (sym (said.filed ∙ last)) s',
      )

  unregisters_followed :
      (listeners : Map ℕ) (w w' : World J) (p : Page B) (id : ℤ) (m : Module)
      → Hosting listeners w
      → Mirrors B w.modules p
      → find id w.modules ≡ some m
      → unregister id w ≡ ok w'
      → Follows listeners w w' p
  unfolding unregister Follows
  unregisters_followed listeners w w' p id m host s there e =
      let r' = unregister-Registered id w host.registered e in
      let (text, made, sent) =
        >>=-eq-ok (create_module_removed J id) _ (if-false w.different_thread _ _ host.on_loop e) in
      let said =
        handle_msg-Sends text listeners (record w { modules = erase id w.modules }) w w'
          host.on_loop host.initialized host.pages refl refl sent r' in
      let (p', shown, s') =
        delete_module-Mirrors C id m w.modules p s host.registered.sorted there in
      (
        text,
        p',
        record { filed = refl; sent = said.sent; hosting = said.hosting; net = said.net },
        on_message-module_removed L C id text p made ∙ shown,
        subst (λ ms. Mirrors B ms p') (sym said.filed) s',
      )

  save_list-assigns :
      (w w' : World J) (id : ℤ) (us : List (ℤ × Text)) (m m' : Module)
      → w.different_thread ≡ false
      → find id w.modules ≡ some m
      → set_property_values m us ≡ ok m'
      → save_list id us w ≡ ok w'
      → ok w' ≡ ok (record w { modules = assign id m' w.modules })
  unfolding save_list
  save_list-assigns w w' id us m m' d there saved e = ground (arith, d, there, saved, e)

  updates_followed :
      (listeners : Map ℕ) (w w' : World J) (p : Page B) (id : ℤ) (us : List (ℤ × Text)) (m : Module)
      → Hosting listeners w
      → Mirrors B w.modules p
      → find id w.modules ≡ some m
      → can_show B (types_of m.properties) us ≡ true
      → update_properties id us w ≡ ok w'
      → Follows listeners w w' p
  unfolding update_properties Follows
  updates_followed listeners w w' p id us m host s there h e =
      let (m', p', saved, shown, s') =
        show_updates-Mirrors C id m us w.modules p s host.registered.sorted there h in
      let (w₁, saving, rest) = >>=-eq-ok (save_list id us w) _ e in
      let (text, made, sent) = >>=-eq-ok (create_property_updated J id us) _ rest in
      let same = ok-injective (save_list-assigns w w₁ id us m m' host.on_loop there saved saving) in
      let r₁ = save_list-Registered id us w host.registered saving in
      let said =
        handle_msg-Sends text listeners w₁ w w' (rw same host.on_loop) (rw same host.initialized)
          (rw same host.pages) (rw same refl) (rw same refl) sent
          (SameRegistry-Registered (handle_msg-SameRegistry text w₁ sent) r₁) in
      (
        text,
        p',
        record { filed = refl; sent = said.sent; hosting = said.hosting; net = said.net },
        on_message-property_updated L C id us text p made ∙ shown,
        subst (λ ms. Mirrors B ms p') (sym (said.filed ∙ rw same refl)) s',
      )

  -- What a page that shows the registry shows behind one operation of the host.
  step_followed :
      (listeners : Map ℕ) (w w' : World J) (p : Page B)
      → Hosting listeners w
      → Mirrors B w.modules p
      → HostStep B w w'
      → Follows listeners w w' p
  step_followed listeners w w' p host s (registers m id h e) =
      registers_followed listeners w w' p m host s h e
  step_followed listeners w w' p host s (unregisters id m there e) =
      unregisters_followed listeners w w' p id m host s there e
  step_followed listeners w w' p host s (updates id us m there h e) =
      updates_followed listeners w w' p id us m host s there h e

  -- Operations of a host that initialized its proxy, on the thread of the loop, one behind another,
  -- each of which ends: registrations of modules that the page can build, removals of modules that
  -- are there, and updates of modules that are there, at indices of properties that are no scripts.
  -- They send the living pages one text each, and a page that shows the registry before them, and
  -- handles these texts in order, handles each without an exception and shows the registry behind
  -- them. To show the registry is to have the modules in their order, with their ids and names, and
  -- for each property, in their order, a widget with the type and the kind of content that the page
  -- has for that of the property, that waits for the apply button where that type does, and has the
  -- property's name, but for a script. Unless the property is read-only or a script, the widget has
  -- its value, as its input takes it; a log begins with it, or is empty where the value is. The
  -- buttons in the selector are then those of these modules, in their order, with their names, and
  -- the module that is selected is one of them and is in the container.
  pub page_follows_host :
      (listeners : Map ℕ) (w w' : World J) (p : Page B)
      → Hosting listeners w
      → Mirrors B w.modules p
      → HostRun B w w'
      → (texts : List Text) × (p' : Page B) × (w'.events
          ≡ w.events ++ broadcast texts (living w.net listeners))
        × (on_messages texts p ≡ ok p')
        × Mirrors B w'.modules p'
  unfolding Follows on_messages
  page_follows_host listeners w w' p host s done = ([], p, sym (append-nil w.events), refl, s)
  page_follows_host listeners w w' p host s (first {v = v} step rest) =
      let (text, p₁, said, shown, s₁) = step_followed listeners w v p host s step in
      let (texts, p', sent, all, s') =
        page_follows_host (living w.net listeners) v w' p₁ said.hosting s₁ rest in
      let still : living v.net (living w.net listeners) ≡ living w.net listeners =
        rw said.net (living-living w.net listeners) in
      (
        text ∷ texts,
        p',
        sent
            ∙ rw (still, said.sent)
                (append_assoc w.events (copies text (living w.net listeners))
                  (broadcast texts (living w.net listeners))),
        rw shown all,
        s',
      )
