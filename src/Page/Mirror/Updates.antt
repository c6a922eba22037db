-- ===== src/Page/Mirror/Updates.antt =====
-- How widgets follow the updates of properties.
use sacs.Prelude.{
  &&-true, Bool, Bool-cases, List, Option, Option-cases, Text, [], arith, false, get_elem?,
  get_elem?-some, inl, inr, leb, length, map, negsuc, none, ok, pos, refl, set, some,
  some_injective, subst, suc, true, zero, ℕ, ℤ, ◌&&◌, ◌++◌, ◌∙◌, ◌∷◌, ◌≡◌, ◌≢◌,
}
use sacs.Module.{Module, Property, set_property_value, set_property_values, set_value}
use sacs.Page.{
  Content, PageModule, Widget, area, checked, from_id, history, line, log_value, pressed, scripted,
  set_content, set_poroperty_value,
}
use sacs.Page.Environment.{Browser, BrowserLaws}
use sacs.Json.{JsonLib}
use sacs.Page.Shown.{show_update}
use sacs.Page.Messages.{for_each}
use sacs.Page.Mirror.{
  Family, Logged, Shows, ShowsEach, ShowsModule, areas, family, family_of, histories, lines, plain,
  presses, scripts, switches,
}
use sacs.Wrapper.{PropertyType}

-- The types of the properties, which no update changes.
abbrev pub types_of : List Property → List ℤ
types_of ps = map (λ (p : Property). p.type) ps

abbrev no_script : Family → Bool
no_script scripts = false
no_script _ = true

no_script-family : (f : Family) → no_script f ≡ true → f ≢ scripts
no_script-family scripts h = cc
no_script-family presses h = λ e. cc
no_script-family switches h = λ e. cc
no_script-family lines h = λ e. cc
no_script-family areas h = λ e. cc
no_script-family histories h = λ e. cc

abbrev updatable : Option PropertyType → Bool
updatable none = false
updatable (some t) = no_script (family t)

-- Each update names a property that is there, and no script, whose `setValue` may do anything.
abbrev pub can_show : Browser → List ℤ → List (ℤ × Text) → Bool
can_show B types [] = true
can_show B types ((pos i, v) ∷ us) =
    elim (get_elem? types i) [ none ↦ false | some n ↦ updatable (from_id B (B.number n)) ]
    && can_show B types us
can_show B types ((negsuc i, v) ∷ us) = false

module _ {J : JsonLib} {B : Browser} (C : BrowserLaws J B) where
  no_length : (v : Text) → leb 1 (length v) ≡ false → v ≡ []
  no_length [] h = refl
  no_length (c ∷ v) h = ground arith

  log_value-ok :
      (old v : Text)
      → (s : Text) × (log_value B old (B.string v) ≡ ok s) × Logged {B = B} (history s) v
  unfolding log_value
  log_value-ok [] v = elim (Bool-cases (leb 1 (length v))) [
    | inl e ↦ (_, rw (C.has_length-string v, e) refl, inl refl)
    | inr e ↦ (_, rw (C.has_length-string v, e) refl, inr (inr (no_length v e, refl)))
  ]
  log_value-ok (c ∷ rest) v = elim (Bool-cases (leb 1 (length v))) [
    | inl e ↦ (
      B.area_value (B.string (B.shown (B.string v) ++ b'\n' ∷ c ∷ rest)),
      rw (C.has_length-string v, e) refl,
      inr (inl (c ∷ rest, refl)),
    )
    | inr e ↦ ([], rw (C.has_length-string v, e) refl, inr (inr (no_length v e, refl)))
  ]

  -- A write to the content of a widget that is no script.
  set_content-fits :
      (c : Content B) (v : Text)
      → family_of c ≢ scripts
      → (c' : Content B) × (set_content c (B.string v) ≡ ok c')
        × (family_of c' ≡ family_of c)
        × ((x : Content B) → plain B (family_of c) v ≡ some x → c' ≡ x)
        × Logged c' v
  unfolding set_content
  set_content-fits pressed v h = (_, refl, refl, λ x e. cc, tt)
  set_content-fits (checked b) v h = (_, refl, refl, λ x e. cc, tt)
  set_content-fits (line s) v h = (_, refl, refl, λ x e. cc, tt)
  set_content-fits (area s) v h = (_, refl, refl, λ x e. cc, tt)
  set_content-fits (history s) v h =
      let (s', e, l) = log_value-ok s v in (history s', rw e refl, refl, λ x e. cc, l)
  set_content-fits (scripted object) v h = absurd (h refl)

  ShowsEach-lookup :
      (ps : List Property) (ws : List (Widget B)) (i : ℕ) (p : Property)
      → ShowsEach B ps ws
      → get_elem? ps i ≡ some p
      → (w : Widget B) × (get_elem? ws i ≡ some w) × Shows B p w
  ShowsEach-lookup [] ws i p s h = cc
  ShowsEach-lookup (q ∷ ps) [] i p s h = absurd s
  ShowsEach-lookup (q ∷ ps) (w ∷ ws) zero p (s, r) h =
      (w, refl, subst (λ x. Shows B x w) (some_injective h) s)
  ShowsEach-lookup (q ∷ ps) (w ∷ ws) (suc i) p (s, r) h = ShowsEach-lookup ps ws i p r h

  ShowsEach-set :
      (ps : List Property) (ws : List (Widget B)) (i : ℕ) (p : Property) (w : Widget B)
      → ShowsEach B ps ws
      → Shows B p w
      → ShowsEach B (set ps i p) (set ws i w)
  ShowsEach-set [] [] i p w s t = tt
  ShowsEach-set (q ∷ ps) (x ∷ ws) zero p w (s, r) t = (t, r)
  ShowsEach-set (q ∷ ps) (x ∷ ws) (suc i) p w (s, r) t = (s, ShowsEach-set ps ws i p w r t)
  ShowsEach-set [] (x ∷ ws) i p w s t = absurd s
  ShowsEach-set (q ∷ ps) [] i p w s t = absurd s

  set_value-Shows :
      (p : Property) (w : Widget B) (v : Text) (c : Content B) (s : Shows B p w)
      → family_of c ≡ family s.type
      → ((x : Content B) → plain B (family s.type) v ≡ some x → c ≡ x)
      → Logged c v
      → Shows B (set_value p v) (record w { content = c })
  unfolding set_value
  set_value-Shows p w v c s fits value logged = elim (Bool-cases p.read_only) [
    | inl e ↦ rw e (record {
      type = s.type;
      known = s.known;
      typed = s.typed;
      independent = s.independent;
      labelled = s.labelled;
      fits = fits;
      value = λ x r q. cc;
      logged = λ r. cc;
    })
    | inr e ↦ rw e (record {
      type = s.type;
      known = s.known;
      typed = s.typed;
      independent = s.independent;
      labelled = s.labelled;
      fits = fits;
      value = λ x r q. value x q;
      logged = λ r. logged;
    })
  ]

  -- One update of a property and its widget.
  Shows-update :
      (p : Property) (w : Widget B) (v : Text)
      → Shows B p w
      → updatable (from_id B (B.number p.type)) ≡ true
      → (c : Content B) × (set_content w.content (B.string v) ≡ ok c)
        × Shows B (set_value p v) (record w { content = c })
  Shows-update p w v s h =
      let no_scripts : family_of w.content ≢ scripts =
        rw s.fits (no_script-family (family s.type) (rw s.known at h)) in
      let (c, made, fits, value, logged) = set_content-fits w.content v no_scripts in
      (c, made, set_value-Shows p w v c s (fits ∙ s.fits) (rw s.fits at value) logged)

  types_of-set :
      (ps : List Property) (i : ℕ) (p : Property) (v : Text)
      → get_elem? ps i ≡ some p
      → types_of (set ps i (set_value p v)) ≡ types_of ps
  unfolding set_value
  types_of-set [] i p v h = refl
  types_of-set (q ∷ ps) zero p v h = ground arith
  types_of-set (q ∷ ps) (suc i) p v h = rw (types_of-set ps i p v h) refl

  types_of-get :
      (ps : List Property) (i : ℕ) {n : ℤ}
      → get_elem? (types_of ps) i ≡ some n
      → (p : Property) × (get_elem? ps i ≡ some p) × (p.type ≡ n)
  types_of-get [] i h = cc
  types_of-get (q ∷ ps) zero h = (q, refl, some_injective h)
  types_of-get (q ∷ ps) (suc i) h = types_of-get ps i h

  set_property_value-at :
      (m : Module) (i : ℕ) (p : Property) (v : Text)
      → get_elem? m.properties i ≡ some p
      → set_property_value m (pos i) v
        ≡ ok (record m { properties = set m.properties i (set_value p v) })
  unfolding set_property_value
  set_property_value-at m i p v h = ground (arith, get_elem?-some m.properties i h)

  -- The updates on both sides.
  pub show_updates-Shows :
      (us : List (ℤ × Text)) (m : Module) (pm : PageModule B)
      → ShowsModule B m pm
      → can_show B (types_of m.properties) us ≡ true
      → (m' : Module) × (pm' : PageModule B) × (set_property_values m us ≡ ok m')
        × (for_each show_update us pm ≡ ok pm')
        × ShowsModule B m' pm'
        × (m'.id ≡ m.id)
        × (pm'.object_no ≡ pm.object_no)
        × (pm'.name ≡ pm.name)
  unfolding set_property_values for_each show_update set_poroperty_value
  show_updates-Shows [] m pm s h = (m, pm, refl, refl, s, refl, refl, refl)
  show_updates-Shows ((negsuc i, v) ∷ us) m pm s h = cc
  show_updates-Shows ((pos i, v) ∷ us) m pm s h =
      elim (Option-cases (get_elem? (types_of m.properties) i)) [
        | inl none_there ↦ cc (rw none_there at h)
        | inr (n, there) ↦
            let (this, later) =
              &&-true (updatable (from_id B (B.number n))) (can_show B (types_of m.properties) us)
                (rw there at h) in
            let (p, found, typed) = types_of-get m.properties i there in
            let (w, at_w, shows) =
              ShowsEach-lookup m.properties pm.properties i p s.properties found in
            let (c, made, shows') = Shows-update p w v shows (rw typed this) in
            let w' : Widget B = record w { content = c } in
            let m₁ : Module = record m { properties = set m.properties i (set_value p v) } in
            let pm₁ : PageModule B = record pm { properties = set pm.properties i w' } in
            let s₁ : ShowsModule B m₁ pm₁ = record {
              id = s.id;
              name = s.name;
              properties =
                  ShowsEach-set m.properties pm.properties i (set_value p v) w' s.properties shows';
            } in
            let (m', pm', e, e', s', same, same_no, same_name) =
              show_updates-Shows us m₁ pm₁ s₁ (rw (types_of-set m.properties i p v found) later) in
            (
              m',
              pm',
              rw (set_property_value-at m i p v found) e,
              rw (C.index-pos i, at_w, made) e',
              s',
              same,
              same_no,
              same_name,
            )
      ]
