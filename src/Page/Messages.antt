-- ===== src/Page/Messages.antt =====
-- webapp/module.manager.js, message.builder.js and web.app.js: what the page does with a message, and
-- the messages that it sends.
use sacs.Prelude.{
  Bool, List, Result, Text, [], codes, false, if◌then◌else◌, json_error, none, not, ok, or_throw,
  pos, some, suc, true, type_error, ℕ, ◌++◌, ◌+◌, ◌==◌, ◌>>=◌, ◌∷◌,
}
use sacs.Page.Environment.{Browser}
use sacs.Page.{
  Page, PageModule, Widget, add_property, from_id, get_content, get_module_by_id,
  needs_apply_button, remove_module_by_id, set_module, set_poroperty_value,
}
use sacs.Page.Selector.{on_module_added, on_module_removed}

-- The round of a loop of `forEach` over values, each of which may throw.
unfoldable pub for_each {ℓ} : {A : Type ℓ} {S : Type 0} → (A → S → Result S) → List A → S → Result S
for_each round [] s = ok s
for_each round (v ∷ vs) s = do s' ← round v s; for_each round vs s'

module _ (B : Browser) where
  open B use {Value, get, literal, array_of, stringify, number, string}

  abbrev pub member_of : Value → Text → Result Value
  member_of v k = or_throw type_error (get v k)

  -- MessageBuilder.createLoadModules
  unfoldable pub create_load_modules : Text
  create_load_modules = stringify (literal ((codes "type", string (codes "load")) ∷ []))

  abbrev pub apply_request : Value → List Value → Text
  apply_request module_id properties = stringify (
      literal (
        (codes "type", string (codes "apply"))
        ∷ (codes "id", module_id)
        ∷ (codes "properties", array_of properties)
        ∷ []))

  abbrev pub update_value : ℕ → Value → Value
  update_value id value = literal ((codes "id", number (pos id)) ∷ (codes "value", value) ∷ [])

  -- MessageBuilder.createPropertyUpdated
  unfoldable pub create_page_update : Value → ℕ → Value → Text
  create_page_update module_id property_id property_value =
      apply_request module_id (update_value property_id property_value ∷ [])

module _ {B : Browser} where
  open B use {Value, each_of, loosely, parse}

  -- One round of the loop of ModuleManager.crateModule.
  unfoldable pub add_from_json : Value → PageModule B → Result (PageModule B)
  unfolding from_id add_property
  add_from_json json m = do
    type ← member_of B json (codes "type")
    name ← member_of B json (codes "name")
    value ← member_of B json (codes "value")
    add_property (from_id B type) name value m

  abbrev pub unfinished : Value → Value → Page B → PageModule B
  unfinished id name p = record {
    object_no = p.created;
    id = id;
    name = name;
    properties = [];
    has_apply_button = false;
  }

  -- The end of ModuleManager.crateModule
  unfoldable pub file_module : PageModule B → Page B → Result (Page B)
  unfolding needs_apply_button set_module on_module_added
  file_module m p =
      let m' = record m { has_apply_button = needs_apply_button m.properties } in
      on_module_added m'
        (record p { created = suc p.created; modules = set_module m'.id m' p.modules })

  -- ModuleManager.crateModule
  unfoldable pub crate_module : Value → Page B → Result (Page B)
  unfolding for_each add_from_json file_module
  crate_module json p = do
    id ← member_of B json (codes "id")
    name ← member_of B json (codes "name")
    properties ← member_of B json (codes "properties")
    vs ← or_throw type_error (each_of properties)
    m ← for_each add_from_json vs (unfinished id name p)
    file_module m p

  -- ModuleManager.deleteModule: a module that is not there is a use of `undefined`.
  unfoldable pub delete_module : Value → Page B → Result (Page B)
  unfolding get_module_by_id on_module_removed remove_module_by_id
  delete_module id p = do
    m ← or_throw type_error (get_module_by_id id p.modules)
    p₁ ← on_module_removed m p
    ok (record p₁ { modules = remove_module_by_id m.id p₁.modules })

  -- One round of the loop of ModuleManager.setModulePoperties.
  unfoldable pub set_from_json : Value → PageModule B → Result (PageModule B)
  unfolding set_poroperty_value
  set_from_json json m = do
    id ← member_of B json (codes "id")
    value ← member_of B json (codes "value")
    set_poroperty_value id value m

  -- ModuleManager.setModulePoperties
  unfoldable pub set_module_poperties : Value → Page B → Result (Page B)
  unfolding get_module_by_id for_each set_from_json set_module
  set_module_poperties json p = do
    id ← member_of B json (codes "id")
    elim (get_module_by_id id p.modules) [
      | none ↦ ok p
      | some m ↦ (do
        properties ← member_of B json (codes "properties")
        vs ← or_throw type_error (each_of properties)
        m' ← for_each set_from_json vs m
        ok (record p { modules = set_module id m' p.modules }))
    ]

  -- WebApp.onMessage
  unfoldable pub on_message : Text → Page B → Result (Page B)
  unfolding set_module_poperties crate_module delete_module for_each
  on_message msg p = do
    json ← or_throw json_error (parse msg)
    type ← member_of B json (codes "type")
    if loosely type (codes "property_update")
        then set_module_poperties json p
        else if loosely type (codes "module_added")
        then (do module_json ← member_of B json (codes "module"); crate_module module_json p)
        else if loosely type (codes "module_removed")
        then (do id ← member_of B json (codes "id"); delete_module id p)
        else if loosely type (codes "module_list")
        then (do
          modules ← member_of B json (codes "modules")
          vs ← or_throw type_error (each_of modules)
          for_each crate_module vs p)
        else ok p

  -- The loop of MessageBuilder.createPropertiesUpdated, from the widget at `i` on.
  unfoldable pub properties_info : ℕ → List (Widget B) → Result (List Value)
  unfolding get_content
  properties_info i [] = ok []
  properties_info i (w ∷ ws) =
      let rest = properties_info (i + 1) ws in
      if not w.is_independent
      then (do value ← get_content w.content; others ← rest; ok (update_value B i value ∷ others))
      else rest

  -- MessageBuilder.createPropertiesUpdated
  unfoldable pub create_page_updates : PageModule B → Result Text
  unfolding properties_info
  create_page_updates m = do info ← properties_info 0 m.properties; ok (apply_request B m.id info)

  abbrev pub send : Text → Page B → Page B
  send text p = record p { sent = p.sent ++ text ∷ [] }

  -- Module.onPropertyActivated, for the widget at `i`
  unfoldable pub on_property_activated : PageModule B → ℕ → Widget B → Page B → Result (Page B)
  unfolding get_content create_page_update
  on_property_activated m i w p = do
    value ← get_content w.content
    ok (send (create_page_update B m.id i value) p)

  -- Module.onPropertiesActivated
  unfoldable pub on_properties_activated : PageModule B → Page B → Result (Page B)
  unfolding create_page_updates
  on_properties_activated m p = do text ← create_page_updates m; ok (send text p)

  -- Whether a module of the map has this number.
  unfoldable pub has_object : ℕ → List (Value × PageModule B) → Bool
  has_object nr [] = false
  has_object nr ((k, m) ∷ rest) = if m.object_no == nr then true else has_object nr rest

  -- WebApp.clear: the nodes of the modules and the buttons go. What the container shows of a module
  -- that is no longer in the map stays.
  unfoldable pub clear : Page B → Page B
  unfolding has_object
  clear p = record p {
    modules = [];
    buttons = [];
    current = none;
    contained = elim p.contained [
      | none ↦ none
      | some nr ↦ if has_object nr p.modules then none else some nr
    ];
  }

  -- WebApp.onConnected, where the socket is open
  unfoldable pub on_connected : Page B → Page B
  unfolding create_load_modules
  on_connected p = send (create_load_modules B) p

  -- WebApp.onDisconnected
  unfoldable pub on_disconnected : Page B → Page B
  unfolding clear
  on_disconnected p = clear p
