-- ===== src/EndToEnd/Astray.antt =====
-- Texts of the host that do not fit what a page shows.
use sacs.Prelude.{
  Bool-cases, List, Text, [], arith, false, get_elem?, inl, inr, length, ltb, none, ok, pos, refl,
  some, suc, throw, type_error, zero, ℕ, ℤ, ◌==ℤ◌, ◌∙◌, ◌∷◌, ◌≡◌, ◌≤◌,
}
use sacs.Maps.{Map, find}
use sacs.Page.Environment.{Browser, BrowserLaws}
use sacs.Json.{JsonLaws, JsonLib}
use sacs.JsonMsg.Build.{create_module_removed, create_property_updated}
use sacs.Module.{Module, Property, set_property_value, set_property_values}
use sacs.Page.{ModuleButton, Page, Widget, get_module_by_id, set_poroperty_value}
use sacs.Page.FromHost.{on_message-module_removed}
use sacs.Page.Updated.{on_message-property_updated}
use sacs.Page.Messages.{delete_module, for_each, on_message}
use sacs.Page.Mirror.{Mirrors, ShowsEach, ShowsEntries}
use sacs.Page.Mirror.Modules.{Entry, get_module-found, same_key-head}
use sacs.Page.Shown.{show_update, show_updates}

module _ {J : JsonLib} {B : Browser} (C : BrowserLaws J B) where
  ShowsEach-none :
      (ps : List Property) (ws : List (Widget B)) (i : ℕ)
      → ShowsEach B ps ws
      → length ps ≤ i
      → get_elem? ws i ≡ none
  ShowsEach-none [] [] i s h = refl
  ShowsEach-none [] (w ∷ ws) i s h = absurd s
  ShowsEach-none (p ∷ ps) [] i s h = absurd s
  ShowsEach-none (p ∷ ps) (w ∷ ws) zero s h = absurd (suc_not_le_0 ps h)
    where
      suc_not_le_0 : (xs : List Property) → ¬ (length (p ∷ xs) ≤ 0)
      suc_not_le_0 xs h = omega arith
  ShowsEach-none (p ∷ ps) (w ∷ ws) (suc i) (s, r) h = ShowsEach-none ps ws i r (omega arith)

  get_module-absent :
      (bs : List (ModuleButton B)) (k : ℤ) (es : Map Module) (fs : List (Entry B))
      → ShowsEntries B bs es fs
      → find k es ≡ none
      → get_module_by_id (B.number k) fs ≡ none
  unfolding find get_module_by_id
  get_module-absent bs k [] [] s h = refl
  get_module-absent bs k [] (f ∷ fs) s h = absurd s
  get_module-absent bs k (e ∷ es) [] s h = absurd s
  get_module-absent bs k ((j, x) ∷ es) ((v, y) ∷ fs) ((a, b, c, d), r) h =
      elim (Bool-cases (j ==ℤ k)) [
        | inl e ↦ cc (rw e at h)
        | inr e ↦
            rw (same_key-head C bs v j k false a e) (get_module-absent bs k es fs r (rw e at h))
      ]

module _ {J : JsonLib} (L : JsonLaws J) {B : Browser} (C : BrowserLaws J B) where
  -- An update of a module that is there, at an index behind its properties: the host takes it
  -- without an exception and changes nothing of the module, but where the message can be dumped, a
  -- page that shows the registry throws a `TypeError` at it.
  pub update_past_end :
      (id : ℤ) (m : Module) (i : ℕ) (v text : Text) (ms : Map Module) (p : Page B)
      → Mirrors B ms p
      → find id ms ≡ some m
      → length m.properties ≤ i
      → create_property_updated J id ((pos i, v) ∷ []) ≡ ok text
      → (set_property_values m ((pos i, v) ∷ []) ≡ ok m) × (on_message text p ≡ throw type_error)
  unfolding set_property_values set_property_value show_updates for_each show_update
      set_poroperty_value
  update_past_end id m i v text ms p s there past made =
      let (pm, found, (_, _, shown, _)) =
        get_module-found C p.buttons id m ms p.modules s.entries there in
      let gone : get_elem? pm.properties i ≡ none =
        ShowsEach-none C m.properties pm.properties i shown.properties past in
      let beyond : ltb i (length m.properties) ≡ false = ground (arith, past) in
      (
        rw beyond refl,
        on_message-property_updated L C id ((pos i, v) ∷ []) text p made
            ∙ rw (show_updates, found, for_each, C.index-pos i, gone) refl,
      )

  -- A module that the page does not show: at the notice that it is gone, the page throws a
  -- `TypeError`, and updates of it the page ignores.
  pub missing_module :
      (id : ℤ) (us : List (ℤ × Text)) (removed updated : Text) (ms : Map Module) (p : Page B)
      → Mirrors B ms p
      → find id ms ≡ none
      → create_module_removed J id ≡ ok removed
      → create_property_updated J id us ≡ ok updated
      → (on_message removed p ≡ throw type_error) × (on_message updated p ≡ ok p)
  unfolding delete_module show_updates
  missing_module id us removed updated ms p s none_there made made' =
      let absent = get_module-absent C p.buttons id ms p.modules s.entries none_there in
      (
        on_message-module_removed L C id removed p made ∙ rw (delete_module, absent) refl,
        on_message-property_updated L C id us updated p made' ∙ rw (show_updates, absent) refl,
      )
