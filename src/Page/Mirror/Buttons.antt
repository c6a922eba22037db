-- ===== src/Page/Mirror/Buttons.antt =====
-- The buttons of the selector under selections, additions and removals.
use sacs.Prelude.{
  Bool, Bool-cases, List, Option-cases, [], arith, elim-none, false, inl, inr, none, ok, refl, some,
  some_injective, subst, sym, true, ℕ, ◌++◌, ◌==◌, ◌||◌, ◌∙◌, ◌∷◌, ◌≡◌,
}
use sacs.Page.{ModuleButton, Page, PageModule}
use sacs.Page.Selector.{
  button_of, change_button, deselect, mark_current, on_module_added, on_module_removed,
  select_module,
}
use sacs.Page.Environment.{Browser}
use sacs.Page.Mirror.{Rising, has_title, listed, numbers}
use sacs.Page.Mirror.Listed.{
  has_title-append, has_title-without, listed-append, listed-hide, listed-mark, numbers-append,
  numbers-change_button, without,
}

module _ {B : Browser} where
  abbrev pub IsButton : ℕ → List (ModuleButton B) → Type 0
  IsButton nr bs = (b : ModuleButton B) × (button_of nr bs ≡ some b)

  -- No module has lost its button.
  abbrev pub Keeps : List (ModuleButton B) → List (ModuleButton B) → Type 0
  Keeps bs bs' = (nr : ℕ) → IsButton nr bs → IsButton nr bs'

  append-Keeps : (bs : List (ModuleButton B)) (x : ModuleButton B) → Keeps bs (bs ++ x ∷ [])
  unfolding button_of
  append-Keeps [] x nr (b, h) = cc
  append-Keeps (y ∷ bs) x nr (b, h) = elim (Bool-cases (y.module_no == nr)) [
    | inl e ↦ rw e (y, refl)
    | inr e ↦ rw e (append-Keeps bs x nr (b, rw e at h))
  ]

  append-IsButton :
      (bs : List (ModuleButton B)) (x : ModuleButton B) → IsButton x.module_no (bs ++ x ∷ [])
  unfolding button_of
  append-IsButton [] x = (x, ground arith)
  append-IsButton (y ∷ bs) x = elim (Bool-cases (y.module_no == x.module_no)) [
    | inl e ↦ rw e (y, refl)
    | inr e ↦ rw e (append-IsButton bs x)
  ]

  change_button-Keeps :
      (k : ℕ) (change : ModuleButton B → ModuleButton B)
      (same : (b : ModuleButton B) → (change b).module_no ≡ b.module_no)
      (bs : List (ModuleButton B))
      → Keeps bs (change_button k change bs)
  unfolding button_of change_button
  change_button-Keeps k change same [] nr h = h
  change_button-Keeps k change same (y ∷ bs) nr (b, h) = elim (Bool-cases (y.module_no == k)) [
    | inl e ↦ elim (Bool-cases (y.module_no == nr)) [
      | inl f ↦
          let f' : ((change y).module_no == nr) ≡ true = rw (same y) f in
          rw (e, f') (change y, refl)
      | inr f ↦
          let f' : ((change y).module_no == nr) ≡ false = rw (same y) f in rw (e, f') (b, rw f at h)
    ]
    | inr e ↦ elim (Bool-cases (y.module_no == nr)) [
      | inl f ↦ rw (e, f) (y, refl)
      | inr f ↦ rw (e, f) (change_button-Keeps k change same bs nr (b, rw f at h))
    ]
  ]

  -- The module that is selected has a button.
  abbrev pub IsSelectable : Page B → Type 0
  IsSelectable p = (nr : ℕ) → p.current ≡ some nr → IsButton nr p.buttons

  -- The module that is selected is in the selector and in the container.
  abbrev pub InPlace : Page B → Type 0
  InPlace p =
      (nr : ℕ)
      → p.current ≡ some nr
      → (has_title nr (listed p.buttons) ≡ true) × (p.contained ≡ some nr)

  mark_current-ok :
      (selected : Bool) (p : Page B)
      → IsSelectable p
      → (bs : List (ModuleButton B)) × (mark_current selected p ≡ ok (record p { buttons = bs }))
        × Keeps p.buttons bs
        × (listed bs ≡ listed p.buttons)
        × (numbers bs ≡ numbers p.buttons)
  unfolding mark_current
  mark_current-ok selected p h = elim (Option-cases p.current) [
    | inl e ↦ (p.buttons, rw e refl, λ nr b. b, refl, refl)
    | inr (c, e) ↦
        let (b, found) = h c e in
        let change : ModuleButton B → ModuleButton B = λ x. record x { is_selected = selected } in
        (
          change_button c change p.buttons,
          rw (e, found) refl,
          change_button-Keeps c change (λ x. refl) p.buttons,
          listed-mark c selected p.buttons,
          numbers-change_button c change (λ x. refl) p.buttons,
        )
  ]

  select_module-ok :
      (nr : ℕ) (p : Page B)
      → IsSelectable p
      → IsButton nr p.buttons
      → (bs : List (ModuleButton B)) × (select_module nr p
          ≡ ok (record p { buttons = bs; current = some nr; contained = some nr }))
        × Keeps p.buttons bs
        × (listed bs ≡ listed p.buttons)
        × (numbers bs ≡ numbers p.buttons)
  unfolding select_module
  select_module-ok nr p h b =
      let (bs₁, e₁, k₁, l₁, n₁) = mark_current-ok false p h in
      let p₁ : Page B = record p { buttons = bs₁; current = some nr; contained = some nr } in
      let (bs₂, e₂, k₂, l₂, n₂) =
        mark_current-ok true p₁ (λ c e. subst (λ n. IsButton n bs₁) (some_injective e) (k₁ nr b)) in
      (bs₂, rw (e₁, e₂) refl, λ n x. k₂ n (k₁ n x), l₂ ∙ l₁, n₂ ∙ n₁)

  -- What a change of the selector leaves.
  pub record Rewired (p p' : Page B) : Type 0 where
    pub modules : p'.modules ≡ p.modules
    pub keeps : Keeps p.buttons p'.buttons
    pub selectable : IsSelectable p'
    pub in_place : InPlace p'
    pub created : p'.created ≡ p.created

  pub on_module_added-Rewired :
      (m : PageModule B) (p : Page B)
      → IsSelectable p
      → InPlace p
      → (p' : Page B) × (on_module_added m p ≡ ok p')
        × Rewired p p'
        × IsButton m.object_no p'.buttons
        × (listed p'.buttons ≡ listed p.buttons ++ (m.object_no, m.name) ∷ [])
        × (numbers p'.buttons ≡ numbers p.buttons ++ m.object_no ∷ [])
  unfolding on_module_added
  on_module_added-Rewired m p h place =
      let x : ModuleButton B = record {
        module_no = m.object_no;
        label = m.name;
        in_selector = true;
        is_selected = false;
      } in
      let bs = p.buttons ++ x ∷ [] in
      let keeps = append-Keeps p.buttons x in
      let this = append-IsButton p.buttons x in
      let more : listed bs ≡ listed p.buttons ++ (m.object_no, m.name) ∷ [] =
        listed-append p.buttons x refl in
      let nos : numbers bs ≡ numbers p.buttons ++ m.object_no ∷ [] = numbers-append p.buttons x in
      let still : (nr : ℕ)
          → has_title nr (listed bs) ≡ has_title nr (listed p.buttons) || (m.object_no == nr) =
        λ nr. rw more (has_title-append nr (listed p.buttons) (m.object_no, m.name)) in
      elim (Option-cases p.current) [
        | inr (c, e) ↦ (
          record p { buttons = bs },
          rw e refl,
          record {
            modules = refl;
            keeps = keeps;
            selectable = λ nr f. keeps nr (h nr f);
            in_place = λ nr f. (ground (arith, still nr, (place nr f).0), (place nr f).1);
            created = refl;
          },
          this,
          more,
          nos,
        )
        | inl e ↦
            let p₁ : Page B = record p { buttons = bs } in
            let (bs', made, k, l, n) =
              select_module-ok m.object_no p₁ (λ nr f. keeps nr (h nr f)) this in
            (
              record p { buttons = bs'; current = some m.object_no; contained = some m.object_no },
              elim-none p.current (select_module m.object_no p₁) (λ c. ok p₁) e ∙ made,
              record {
                modules = refl;
                keeps = λ nr b. k nr (keeps nr b);
                selectable =
                    λ nr f. subst (λ n. IsButton n bs') (some_injective f) (k m.object_no this);
                in_place = λ nr f.
                    let same : m.object_no ≡ nr = some_injective f in
                    (rw l (ground (arith, still nr, same)), rw same refl);
                created = refl;
              },
              k m.object_no this,
              l ∙ more,
              n ∙ nos,
            )
      ]

  pub on_module_removed-Rewired :
      (m : PageModule B) (p : Page B)
      → IsSelectable p
      → InPlace p
      → Rising 0 (numbers p.buttons) p.created
      → IsButton m.object_no p.buttons
      → (p' : Page B) × (on_module_removed m p ≡ ok p')
        × Rewired p p'
        × (listed p'.buttons ≡ without m.object_no (listed p.buttons))
        × (numbers p'.buttons ≡ numbers p.buttons)
  unfolding on_module_removed deselect
  on_module_removed-Rewired m p h place rises (b, found) =
      let change : ModuleButton B → ModuleButton B = λ x. record x { in_selector = false } in
      let bs = change_button m.object_no change p.buttons in
      let keeps = change_button-Keeps m.object_no change (λ x. refl) p.buttons in
      let less : listed bs ≡ without m.object_no (listed p.buttons) =
        listed-hide m.object_no 0 p.created p.buttons rises in
      let nos = numbers-change_button m.object_no change (λ x. refl) p.buttons in
      elim (Option-cases p.current) [
        | inl e ↦ (
          record p { buttons = bs },
          rw (e, found) refl,
          record {
            modules = refl;
            keeps = keeps;
            selectable = λ nr f. keeps nr (h nr f);
            in_place = λ nr f. cc;
            created = refl;
          },
          less,
          nos,
        )
        | inr (c, e) ↦ elim (Bool-cases (c == m.object_no)) [
          | inl same ↦ (
            record p { buttons = bs; current = none; contained = none },
            rw (e, same, found) refl,
            record {
              modules = refl;
              keeps = keeps;
              selectable = λ nr f. cc;
              in_place = λ nr f. cc;
              created = refl;
            },
            less,
            nos,
          )
          | inr other ↦ (
            record p { buttons = bs },
            rw (e, other, found) refl,
            record {
              modules = refl;
              keeps = keeps;
              selectable = λ nr f. keeps nr (h nr f);
              in_place = λ nr f.
                  let same : c ≡ nr = some_injective (sym e ∙ f) in
                  let kept =
                    has_title-without nr m.object_no (listed p.buttons) (rw same at other) in
                  (rw less (kept ∙ (place nr f).0), (place nr f).1);
              created = refl;
            },
            less,
            nos,
          )
        ]
      ]
