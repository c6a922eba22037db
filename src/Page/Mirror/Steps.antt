-- ===== src/Page/Mirror/Steps.antt =====
-- A page that shows a registry, when a module comes, goes or changes.
use sacs.Prelude.{
  &&-true, Bool, List, Text, [], ap, append-nil, append_assoc, arith, map, none, ok, refl, set,
  some, subst, suc, sym, true, ℤ, ◌&&◌, ◌++◌, ◌∙◌, ◌∷◌, ◌≡◌,
}
use sacs.Maps.{Above-IsSorted, IsSorted, Map, assign, erase, find, find-front, find-head, find-tail}
use sacs.Json.{JsonLib}
use sacs.Module.{Module, set_property_values}
use sacs.Page.{Page, PageModule, needs_apply_button, remove_module_by_id, set_module}
use sacs.Page.Selector.{on_module_added}
use sacs.Page.Environment.{Browser, BrowserLaws}
use sacs.Page.Shown.{show_module, show_updates}
use sacs.Page.Messages.{
  clear, delete_module, file_module, for_each, on_connected, on_disconnected, unfinished,
}
use sacs.Page.Mirror.{HasButton, Mirrors, Rising, ShowsModule, numbers, titles}
use sacs.Page.Mirror.Buttons.{on_module_added-Rewired, on_module_removed-Rewired}
use sacs.Page.Mirror.Modules.{
  Entry, ShowsEntries-Keeps, ShowsEntries-append, get_module-found, remove_module-Shows,
  set_module-Shows, set_module-absent,
}
use sacs.Page.Mirror.Widgets.{can_build, show_properties}
use sacs.Page.Mirror.Updates.{can_show, show_updates-Shows, types_of}
use sacs.Page.Mirror.Listed.{firsts, Rising-append, Rising-listed}
use sacs.Page.Mirror.Titles.{titles-append, titles-remove, titles-set_module}

-- The modules have their keys as ids.
abbrev pub HaveKeys : Map Module → Type 0
HaveKeys [] = Unit {0}
HaveKeys ((k, m) ∷ ms) = (m.id ≡ k) × HaveKeys ms

-- The modules of a registry in order have their keys as ids.
pub own_id-HaveKeys :
    (m : Map Module)
    → IsSorted m
    → ((k : ℤ) (x : Module) → find k m ≡ some x → x.id ≡ k)
    → HaveKeys m
own_id-HaveKeys [] s h = tt
own_id-HaveKeys ((k, x) ∷ m) s h = (
  h k x (find-head k x m),
  own_id-HaveKeys m (Above-IsSorted k m s) (λ j y e. h j y (find-tail k j x m s e)),
)

abbrev pub can_build_all : Browser → Map Module → Bool
can_build_all B [] = true
can_build_all B ((k, m) ∷ ms) = can_build B m.properties && can_build_all B ms

module _ {J : JsonLib} {B : Browser} (C : BrowserLaws J B) where
  file_module-Mirrors :
      (m : Module) (ms : Map Module) (pm : PageModule B) (p : Page B)
      → Mirrors B ms p
      → find m.id ms ≡ none
      → ShowsModule B m pm
      → pm.object_no ≡ p.created
      → (p' : Page B) × (file_module pm p ≡ ok p') × Mirrors B (ms ++ (m.id, m) ∷ []) p'
  unfolding file_module
  file_module-Mirrors m ms pm p s new shown fresh =
      let pm' : PageModule B = record pm { has_apply_button = needs_apply_button pm.properties } in
      let filed : set_module pm.id pm' p.modules ≡ p.modules ++ (pm.id, pm') ∷ [] =
        subst (λ v. set_module v pm' p.modules ≡ p.modules ++ (v, pm') ∷ []) (sym shown.id)
          (set_module-absent C p.buttons m.id pm' ms p.modules s.entries new) in
      let (p', added, w, b, more, nos) =
        on_module_added-Rewired pm'
          (record p { created = suc p.created; modules = p.modules ++ (pm.id, pm') ∷ [] })
          s.selected s.in_place in
      let here : HasButton B p'.buttons (m.id, m) (pm.id, pm') = (
        shown.id,
        refl,
        record { id = shown.id; name = shown.name; properties = shown.properties },
        b,
      ) in
      (
        p',
        ap
              (λ (entries : List (Entry B)).
                on_module_added pm' (record p { created = suc p.created; modules = entries }))
              filed
            ∙ added,
        record {
          entries = rw w.modules (
              ShowsEntries-append p'.buttons ms p.modules (m.id, m) (pm.id, pm')
                (ShowsEntries-Keeps p.buttons p'.buttons ms p.modules w.keeps s.entries) here);
          selected = w.selectable;
          selector = rw (more, w.modules, s.selector) (sym (titles-append p.modules (pm.id, pm')));
          in_place = w.in_place;
          rising =
              rw (nos, w.created, fresh) (Rising-append 0 p.created (numbers p.buttons) s.rising);
        },
      )

  -- A module with an id that the page does not show yet comes last.
  pub show_module-Mirrors :
      (m : Module) (ms : Map Module) (p : Page B)
      → Mirrors B ms p
      → find m.id ms ≡ none
      → can_build B m.properties ≡ true
      → (p' : Page B) × (show_module m p ≡ ok p') × Mirrors B (ms ++ (m.id, m) ∷ []) p'
  unfolding show_module
  show_module-Mirrors m ms p s new h =
      let start = unfinished (B.number m.id) (B.string m.name) p in
      let (pm, made, o, i, n, shows) = show_properties [] m.properties start h tt in
      let (p', e, s') =
        file_module-Mirrors m ms pm p s new (record { id = i; name = n; properties = shows }) o in
      (p', rw made e, s')

  -- A module that goes leaves the page.
  pub delete_module-Mirrors :
      (k : ℤ) (m : Module) (ms : Map Module) (p : Page B)
      → Mirrors B ms p
      → IsSorted ms
      → find k ms ≡ some m
      → (p' : Page B) × (delete_module (B.number k) p ≡ ok p') × Mirrors B (erase k ms) p'
  unfolding delete_module
  delete_module-Mirrors k m ms p s sorted there =
      let (pm, found, (_, own, shown, b)) =
        get_module-found C p.buttons k m ms p.modules s.entries there in
      let (p₁, removed, w, less, nos) =
        on_module_removed-Rewired pm p s.selected s.in_place s.rising b in
      let up : Rising 0 (firsts (titles p.modules)) p.created =
        rw (← s.selector) (Rising-listed 0 p.created p.buttons s.rising) in
      let id : pm.id ≡ B.number k = rw own at shown.id in
      (
        record p₁ { modules = remove_module_by_id (B.number k) p₁.modules },
        rw (delete_module, found, removed, id) refl,
        record {
          entries = rw w.modules (
              ShowsEntries-Keeps p.buttons p₁.buttons _ _ w.keeps
                (remove_module-Shows C p.buttons k ms p.modules sorted s.entries));
          selected = w.selectable;
          selector =
              rw (less, w.modules, s.selector)
                (sym (titles-remove (B.number k) 0 p.created p.modules up found));
          in_place = w.in_place;
          rising = rw (nos, w.created) s.rising;
        },
      )

  -- Updates of a module change its widgets as they change its properties.
  pub show_updates-Mirrors :
      (k : ℤ) (m : Module) (us : List (ℤ × Text)) (ms : Map Module) (p : Page B)
      → Mirrors B ms p
      → IsSorted ms
      → find k ms ≡ some m
      → can_show B (types_of m.properties) us ≡ true
      → (m' : Module) × (p' : Page B) × (set_property_values m us ≡ ok m')
        × (show_updates k us p ≡ ok p')
        × Mirrors B (assign k m' ms) p'
  unfolding show_updates
  show_updates-Mirrors k m us ms p s sorted there h =
      let (pm, found, (_, own, shown, b)) =
        get_module-found C p.buttons k m ms p.modules s.entries there in
      let (m', pm', saved, set, shown', same, object, named) =
        show_updates-Shows C us m pm shown h in
      let here : HasButton B p.buttons (k, m') (B.number k, pm') =
        (refl, same ∙ own, shown', rw object b) in
      (
        m',
        record p { modules = set_module (B.number k) pm' p.modules },
        saved,
        rw (show_updates, found, set) refl,
        record {
          entries = set_module-Shows C p.buttons k m' pm' ms p.modules sorted s.entries there here;
          selected = s.selected;
          selector =
              s.selector ∙ sym (titles-set_module (B.number k) pm pm' p.modules found object named);
          in_place = s.in_place;
          rising = s.rising;
        },
      )

  -- The modules of a list come one behind another.
  show_modules-Mirrors :
      (done ms : Map Module) (p : Page B)
      → Mirrors B done p
      → IsSorted (done ++ ms)
      → HaveKeys ms
      → can_build_all B ms ≡ true
      → (p' : Page B) × (for_each show_module (map (λ (entry : ℤ × Module). entry.1) ms) p ≡ ok p')
        × Mirrors B (done ++ ms) p'
  unfolding for_each
  show_modules-Mirrors done [] p s sorted keys h = (p, refl, rw (append-nil done) s)
  show_modules-Mirrors done ((k, m) ∷ ms) p s sorted (key, keys) h =
      let (this, later) = &&-true (can_build B m.properties) (can_build_all B ms) h in
      let new : find m.id done ≡ none = rw key (find-front k m done ms sorted) in
      let (p₁, e, s₁) = show_module-Mirrors m done p s new this in
      let joined : (done ++ (k, m) ∷ []) ++ ms ≡ done ++ (k, m) ∷ ms =
        append_assoc done ((k, m) ∷ []) ms in
      let (p', e', s') =
        show_modules-Mirrors (done ++ (k, m) ∷ []) ms p₁
          (subst (λ j. Mirrors B (done ++ (j, m) ∷ []) p₁) key s₁)
          (subst IsSorted (sym joined) sorted) keys later in
      (p', rw e e', subst (λ all. Mirrors B all p') joined s')

  -- A page without modules, where none is selected, that shows the modules of a registry in order,
  -- each with the key that is its id, shows the registry.
  pub show_registry-Mirrors :
      (ms : Map Module) (p : Page B)
      → Mirrors B [] p
      → IsSorted ms
      → HaveKeys ms
      → can_build_all B ms ≡ true
      → (p' : Page B) × (for_each show_module (map (λ (entry : ℤ × Module). entry.1) ms) p ≡ ok p')
        × Mirrors B ms p'
  show_registry-Mirrors ms p s sorted keys h = show_modules-Mirrors [] ms p s sorted keys h

  -- A page that has lost its connection and got another shows nothing.
  pub on_disconnected-Mirrors : (p : Page B) → Mirrors B [] (on_connected (on_disconnected p))
  unfolding on_connected on_disconnected clear
  on_disconnected-Mirrors p = record {
    entries = tt;
    selected = λ nr e. cc;
    selector = refl;
    in_place = λ nr e. cc;
    rising = omega arith;
  }
