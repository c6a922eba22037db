-- ===== src/Page/Shown.antt =====
-- What the page does with the modules and updates of a process, said without JSON.
use sacs.Prelude.{List, Result, Text, none, ok, some, ℤ, ◌>>=◌}
use sacs.Module.{Module, Property}
use sacs.Page.{
  Page, PageModule, add_property, from_id, get_module_by_id, set_module, set_poroperty_value,
}
use sacs.Page.Environment.{Browser}
use sacs.Page.Messages.{file_module, for_each, unfinished}

module _ {B : Browser} where
  -- A property of a process as a widget of the page.
  unfoldable pub show_property : Property → PageModule B → Result (PageModule B)
  show_property p m =
      add_property (from_id B (B.number p.type)) (B.string p.name) (B.string p.value) m

  -- A module of a process on the page.
  unfoldable pub show_module : Module → Page B → Result (Page B)
  unfolding show_property
  show_module m p = do
    pm ← for_each show_property m.properties (unfinished (B.number m.id) (B.string m.name) p)
    file_module pm p

  unfoldable pub show_update : ℤ × Text → PageModule B → Result (PageModule B)
  show_update (i, value) m = set_poroperty_value (B.number i) (B.string value) m

  -- Updates of a module of a process on the page.
  unfoldable pub show_updates : ℤ → List (ℤ × Text) → Page B → Result (Page B)
  unfolding show_update
  show_updates id us p = elim (get_module_by_id (B.number id) p.modules) [
    | none ↦ ok p
    | some m ↦ (do
      m' ← for_each show_update us m
      ok (record p { modules = set_module (B.number id) m' p.modules }))
  ]
