-- ===== src/Page/Selector.antt =====
-- webapp/module.selector.js: the buttons that select a module, and what the container shows.
use sacs.Prelude.{
  Bool, List, Option, Result, [], false, if◌then◌else◌, none, ok, or_throw, some, true, type_error,
  ℕ, ◌++◌, ◌==◌, ◌>>=◌, ◌∷◌,
}
use sacs.Page.Environment.{Browser}
use sacs.Page.{ModuleButton, Page, PageModule}

module _ {B : Browser} where
  -- `buttons.get(module)`
  unfoldable pub button_of : ℕ → List (ModuleButton B) → Option (ModuleButton B)
  button_of nr [] = none
  button_of nr (b ∷ bs) = if b.module_no == nr then some b else button_of nr bs

  -- A change of a button.
  unfoldable pub change_button :
      ℕ → (ModuleButton B → ModuleButton B) → List (ModuleButton B) → List (ModuleButton B)
  change_button nr change [] = []
  change_button nr change (b ∷ bs) =
      let rest = change_button nr change bs in if b.module_no == nr then change b ∷ bs else b ∷ rest

  -- ModuleSelector.selectCurrentButton and unselectCurrentButton: a current module without a button
  -- is a use of `undefined`.
  unfoldable pub mark_current : Bool → Page B → Result (Page B)
  unfolding button_of change_button
  mark_current selected p = elim p.current [
    | none ↦ ok p
    | some nr ↦ (do
      b ← or_throw type_error (button_of nr p.buttons)
      ok (record p {
        buttons = change_button nr (λ b. record b { is_selected = selected }) p.buttons;
      }))
  ]

  -- ModuleSelector.selectModule
  unfoldable pub select_module : ℕ → Page B → Result (Page B)
  unfolding mark_current
  select_module nr p = do
    p₁ ← mark_current false p
    mark_current true (record p₁ { current = some nr; contained = some nr })

  -- ModuleSelector.onModuleAdded
  unfoldable pub on_module_added : PageModule B → Page B → Result (Page B)
  unfolding select_module
  on_module_added m p =
      let p₁ = record p {
        buttons =
            p.buttons
            ++ record {
              module_no = m.object_no;
              label = m.name;
              in_selector = true;
              is_selected = false;
            }
              ∷ [];
      } in
      elim p.current [ none ↦ select_module m.object_no p₁ | some nr ↦ ok p₁ ]

  -- The first branch of ModuleSelector.onModuleRemoved.
  unfoldable pub deselect : ℕ → Option ℕ → Page B → Page B
  deselect nr none p = p
  deselect nr (some c) p = if c == nr then record p { current = none; contained = none } else p

  -- ModuleSelector.onModuleRemoved. The button stays in the map, since `delete` is given the button
  -- and not the module.
  unfoldable pub on_module_removed : PageModule B → Page B → Result (Page B)
  unfolding button_of change_button deselect
  on_module_removed m p =
      let p₁ = deselect m.object_no p.current p in
      (do
        b ← or_throw type_error (button_of m.object_no p₁.buttons)
        ok (record p₁ {
          buttons = change_button m.object_no (λ b. record b { in_selector = false }) p₁.buttons;
        }))
