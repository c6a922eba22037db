-- ===== src/Page/Mirror/Widgets.antt =====
-- How widgets follow properties.
use sacs.Prelude.{
  &&-true, Bool, List, Option, Option-cases, Text, [], append-nil, append_assoc, false, inl, inr,
  none, ok, refl, some, true, ◌&&◌, ◌++◌, ◌∷◌, ◌≡◌,
}
use sacs.Module.{Property}
use sacs.Page.{Content, PageModule, Widget, add_property, from_id, new_widget, scripted}
use sacs.Page.Environment.{Browser}
use sacs.Page.Shown.{show_property}
use sacs.Page.Messages.{for_each}
use sacs.Page.Mirror.{
  Logged, Shows, ShowsEach, acts_alone, family, family_of, label_of, node_type, plain,
}
use sacs.Wrapper.{
  PropertyType, button, button_sw, button_sw_in, text, text_bt, text_ro, text_area, text_area_bt,
  text_area_ro, log, script,
}

module _ (B : Browser) where
  open B use {construct}

  -- The page has a widget for the type, and the script of a script can be made.
  abbrev builds_as : Option PropertyType → Text → Bool
  builds_as none s = false
  builds_as (some script) s = elim (construct (B.string s)) [ none ↦ false | some object ↦ true ]
  builds_as (some _) s = true

  abbrev pub can_build : List Property → Bool
  can_build [] = true
  can_build (p ∷ ps) = builds_as (from_id B (B.number p.type)) p.value && can_build ps

module _ {B : Browser} where
  Shows-new :
      (t : PropertyType) (p : Property) (w : Widget B)
      → from_id B (B.number p.type) ≡ some t
      → w.type ≡ node_type t
      → w.is_independent ≡ acts_alone t
      → w.label ≡ label_of B t p.name
      → family_of w.content ≡ family t
      → ((c : Content B) → plain B (family t) p.value ≡ some c → w.content ≡ c)
      → Logged w.content p.value
      → Shows B p w
  Shows-new t p w known typed independent labelled fits value logged = record {
    type = t;
    known = known;
    typed = typed;
    independent = independent;
    labelled = labelled;
    fits = fits;
    value = λ c r v. value c v;
    logged = λ r. logged;
  }

  new_widget-Shows :
      (t : PropertyType) (p : Property)
      → builds_as B (some t) p.value ≡ true
      → from_id B (B.number p.type) ≡ some t
      → (w : Widget B) × (new_widget t (B.string p.name) (B.string p.value) ≡ ok w) × Shows B p w
  unfolding new_widget
  new_widget-Shows button p h e =
      (_, refl, Shows-new button p _ e refl refl refl refl (λ c v. cc) tt)
  new_widget-Shows button_sw p h e =
      (_, refl, Shows-new button_sw p _ e refl refl refl refl (λ c v. cc) tt)
  new_widget-Shows button_sw_in p h e =
      (_, refl, Shows-new button_sw_in p _ e refl refl refl refl (λ c v. cc) tt)
  new_widget-Shows text p h e = (_, refl, Shows-new text p _ e refl refl refl refl (λ c v. cc) tt)
  new_widget-Shows text_bt p h e =
      (_, refl, Shows-new text_bt p _ e refl refl refl refl (λ c v. cc) tt)
  new_widget-Shows text_ro p h e =
      (_, refl, Shows-new text_ro p _ e refl refl refl refl (λ c v. cc) tt)
  new_widget-Shows text_area p h e =
      (_, refl, Shows-new text_area p _ e refl refl refl refl (λ c v. cc) tt)
  new_widget-Shows text_area_bt p h e =
      (_, refl, Shows-new text_area_bt p _ e refl refl refl refl (λ c v. cc) tt)
  new_widget-Shows text_area_ro p h e =
      (_, refl, Shows-new text_area_ro p _ e refl refl refl refl (λ c v. cc) tt)
  new_widget-Shows log p h e =
      (_, refl, Shows-new log p _ e refl refl refl refl (λ c v. cc) (inl refl))
  new_widget-Shows script p h e = elim (Option-cases (B.construct (B.string p.value))) [
    | inl n ↦ cc (rw (builds_as, n) at h)
    | inr (object, made) ↦
        let w : Widget B = record {
          type = script;
          label = none;
          is_independent = true;
          content = scripted object;
        } in
        (w, rw made refl, Shows-new script p w e refl refl refl refl (λ c v. cc) tt)
  ]

  ShowsEach-append :
      (ps : List Property) (ws : List (Widget B)) (p : Property) (w : Widget B)
      → ShowsEach B ps ws
      → Shows B p w
      → ShowsEach B (ps ++ p ∷ []) (ws ++ w ∷ [])
  ShowsEach-append [] [] p w s t = (t, tt)
  ShowsEach-append (q ∷ ps) (x ∷ ws) p w (s, r) t = (s, ShowsEach-append ps ws p w r t)
  ShowsEach-append [] (x ∷ ws) p w s t = absurd s
  ShowsEach-append (q ∷ ps) [] p w s t = absurd s

  -- What the loop that adds the properties of a module has done.
  pub show_properties :
      (done ps : List Property) (m : PageModule B)
      → can_build B ps ≡ true
      → ShowsEach B done m.properties
      → (m' : PageModule B) × (for_each show_property ps m ≡ ok m')
        × (m'.object_no ≡ m.object_no)
        × (m'.id ≡ m.id)
        × (m'.name ≡ m.name)
        × ShowsEach B (done ++ ps) m'.properties
  unfolding for_each show_property add_property
  show_properties done [] m h s = (m, refl, refl, refl, refl, rw (append-nil done) s)
  show_properties done (p ∷ ps) m h s = elim (Option-cases (from_id B (B.number p.type))) [
    | inl n ↦ cc (rw n at h)
    | inr (t, known) ↦
        let (this, later) =
          &&-true (builds_as B (some t) p.value) (can_build B ps) (rw known at h) in
        let (w, made, shows) = new_widget-Shows t p this known in
        let m₁ : PageModule B = record m { properties = m.properties ++ w ∷ [] } in
        let (m', rest, o, i, n, r) =
          show_properties (done ++ p ∷ []) ps m₁ later
            (ShowsEach-append done m.properties p w s shows) in
        (m', rw (known, made, rest) refl, o, i, n, rw (append_assoc done (p ∷ []) ps) at r)
  ]
