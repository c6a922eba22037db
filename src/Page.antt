-- ===== src/Page.antt =====
-- webapp/: the page's modules, their widgets, and the buttons that select them. Of the document it
-- has what a widget shows, which buttons are there, and which module is in the container. A module
-- that another with its id has replaced is kept by its button alone, and no message reaches it, so
-- that a module is a value in the map, with the number of its creation to tell it from others.
pub mod Environment
pub mod Selector
pub mod Messages
pub mod Reconnection
pub mod Countdown
pub mod Reading
pub mod Shown
pub mod Rounds
pub mod FromHost
pub mod Updated
pub mod Updates
pub mod ToHost
pub mod Mirror
use sacs.Prelude.{
  Bool, List, Option, Result, Text, [], codes, false, get_elem?, if◌then◌else◌, length, ltb, none,
  not, ok, or_throw, set, some, suc, throw, true, type_error, ℕ, ◌++◌, ◌==◌, ◌>>=◌, ◌∷◌, ◌||◌,
}
use sacs.Page.Environment.{Browser}
use sacs.Wrapper.{
  PropertyType, button, button_sw, button_sw_in, text, text_bt, text_ro, text_area, text_area_bt,
  text_area_ro, log, script,
}

-- PropertyType.PropertyTypeArray
abbrev pub property_type_array : List PropertyType
property_type_array =
    button ∷ button_sw ∷ button_sw_in ∷ text ∷ text_bt ∷ text_ro ∷ text_area ∷ text_area_bt
    ∷ text_area_ro ∷ log ∷ script ∷ []

module _ (B : Browser) where
  open B use {Value, Script, index, has_length, shown, area_value}

  -- What the node of a property holds.
  pub data Content : Type 0 where
    pressed : Content
    checked : Bool → Content
    line : Text → Content
    area : Text → Content
    history : Text → Content
    scripted : Script → Content

  -- Property and its subclasses. The `id` of a widget is its place in its module.
  pub record Widget : Type 0 where
    pub type : PropertyType
    -- What `createLabel` or the button shows
    pub label : Option Value
    pub is_independent : Bool
    pub content : Content

  pub record PageModule : Type 0 where
    pub object_no : ℕ
    pub id : Value
    pub name : Value
    pub properties : List Widget
    pub has_apply_button : Bool

  pub record ModuleButton : Type 0 where
    pub module_no : ℕ
    pub label : Value
    -- Whether its node is in the selector
    pub in_selector : Bool
    pub is_selected : Bool

  pub record Page : Type 0 where
    pub created : ℕ
    pub modules : List (Value × PageModule)
    pub buttons : List ModuleButton
    pub current : Option ℕ
    -- The module whose node is in the container
    pub contained : Option ℕ
    pub sent : List Text

  -- The page behind WebApp.init
  abbrev pub new_page : Page
  new_page = record {
    created = 0;
    modules = [];
    buttons = [];
    current = none;
    contained = none;
    sent = [];
  }

  -- PropertyType.fromId
  unfoldable pub from_id : Value → Option PropertyType
  from_id id = elim (index id) [ none ↦ none | some i ↦ get_elem? property_type_array i ]

  -- LogProperty.setValue
  unfoldable pub log_value : Text → Value → Result Text
  log_value old value = do
    long ← or_throw type_error (has_length value)
    ok (
        if long
        then elim old [
          | [] ↦ area_value value
          | c ∷ rest ↦ area_value (B.string (shown value ++ b'\n' ∷ c ∷ rest))
        ]
        else [])

module _ {B : Browser} where
  open B use {
    Value, Script, get, each_of, index, loosely, has_length, shown, input_value, area_value,
    construct, set_script, get_script, same_key,
  }

  -- The constructors of the classes, with `createNode`. A subclass calls that of its superclass.
  abbrev new_button : Value → Widget B
  new_button label = record {
    type = button;
    label = some label;
    is_independent = true;
    content = pressed;
  }

  abbrev new_button_switch : Value → Value → Widget B
  new_button_switch label value = record {
    type = button_sw;
    label = some label;
    is_independent = false;
    content = checked (loosely value (codes "1"));
  }

  abbrev new_button_switch_independent : Value → Value → Widget B
  new_button_switch_independent label value = record (new_button_switch label value) {
    type = button_sw_in;
    is_independent = true;
  }

  abbrev new_text : Value → Value → Widget B
  new_text label value = record {
    type = text;
    label = some label;
    is_independent = false;
    content = line (input_value value);
  }

  abbrev new_text_read_only : Value → Value → Widget B
  new_text_read_only label value = record (new_text label value) {
    type = text_ro;
    is_independent = true;
  }

  abbrev new_text_with_send : Value → Value → Widget B
  new_text_with_send label value = record (new_text label value) {
    type = text_bt;
    is_independent = true;
  }

  abbrev new_tex_area : Value → Value → Widget B
  new_tex_area label value = record {
    type = text_area;
    label = some label;
    is_independent = false;
    content = area (area_value value);
  }

  -- It takes the type TEXT_AREA_RO.
  abbrev new_tex_area_with_send : Value → Value → Widget B
  new_tex_area_with_send label value = record (new_tex_area label value) {
    type = text_area_ro;
    is_independent = true;
  }

  abbrev new_text_area_read_only : Value → Value → Widget B
  new_text_area_read_only label value = record (new_tex_area label value) {
    type = text_area_ro;
    is_independent = true;
  }

  -- Its `setValue` is another one.
  abbrev new_log : Value → Value → Widget B
  new_log label value = record (new_text_area_read_only label value) {
    type = log;
    content = history (area_value value);
  }

  abbrev new_script : Value → Result (Widget B)
  new_script value = do
    object ← or_throw type_error (construct value)
    ok (record { type = script; label = none; is_independent = true; content = scripted object })

  -- The `switch` of Module.addProperty
  unfoldable pub new_widget : PropertyType → Value → Value → Result (Widget B)
  new_widget button name value = ok (new_button name)
  new_widget button_sw name value = ok (new_button_switch name value)
  new_widget button_sw_in name value = ok (new_button_switch_independent name value)
  new_widget text name value = ok (new_text name value)
  new_widget text_bt name value = ok (new_text_with_send name value)
  new_widget text_ro name value = ok (new_text_read_only name value)
  new_widget text_area name value = ok (new_tex_area name value)
  new_widget text_area_bt name value = ok (new_tex_area_with_send name value)
  new_widget text_area_ro name value = ok (new_text_area_read_only name value)
  new_widget log name value = ok (new_log name value)
  new_widget script name value = new_script value

  -- The `setValue` of a property
  unfoldable pub set_content : Content B → Value → Result (Content B)
  unfolding log_value
  set_content pressed value = ok pressed
  set_content (checked b) value = ok (checked (loosely value (codes "1")))
  set_content (line s) value = ok (line (input_value value))
  set_content (area s) value = ok (area (area_value value))
  set_content (history s) value = do s' ← log_value B s value; ok (history s')
  set_content (scripted object) value = do
    object' ← or_throw type_error (set_script object value)
    ok (scripted object')

  -- The `getValue` of a property
  unfoldable pub get_content : Content B → Result Value
  get_content pressed = ok (B.string (codes "1"))
  get_content (checked true) = ok (B.string (codes "1"))
  get_content (checked false) = ok (B.string (codes "0"))
  get_content (line s) = ok (B.string s)
  get_content (area s) = ok (B.string s)
  get_content (history s) = ok (B.string s)
  get_content (scripted object) = or_throw type_error (get_script object)

  -- Module.addProperty: a type that is not known adds nothing.
  unfoldable pub add_property :
      Option PropertyType → Value → Value → PageModule B → Result (PageModule B)
  unfolding new_widget
  add_property none name value m = ok m
  add_property (some type) name value m = do
    w ← new_widget type name value
    ok (record m { properties = m.properties ++ w ∷ [] })

  -- Module.setPoropertyValue
  unfoldable pub set_poroperty_value : Value → Value → PageModule B → Result (PageModule B)
  unfolding set_content
  set_poroperty_value id value m = do
    i ← or_throw type_error (index id)
    w ← or_throw type_error (get_elem? m.properties i)
    content ← set_content w.content value
    ok (record m { properties = set m.properties i (record w { content = content }) })

  -- Module.needsApplyButton
  unfoldable pub needs_apply_button : List (Widget B) → Bool
  needs_apply_button [] = false
  needs_apply_button (w ∷ ws) = if not w.is_independent then true else needs_apply_button ws

  -- `map.get(key)`
  unfoldable pub get_module_by_id : Value → List (Value × PageModule B) → Option (PageModule B)
  get_module_by_id id [] = none
  get_module_by_id id ((k, m) ∷ rest) = if same_key k id then some m else get_module_by_id id rest

  -- `map.set(key, module)`, and a write through a module that the map holds.
  unfoldable pub set_module :
      Value → PageModule B → List (Value × PageModule B) → List (Value × PageModule B)
  set_module id m [] = (id, m) ∷ []
  set_module id m ((k, x) ∷ rest) =
      let rest' = set_module id m rest in if same_key k id then (k, m) ∷ rest else (k, x) ∷ rest'

  -- `map.delete(key)`
  unfoldable pub remove_module_by_id :
      Value → List (Value × PageModule B) → List (Value × PageModule B)
  remove_module_by_id id [] = []
  remove_module_by_id id ((k, x) ∷ rest) =
      let rest' = remove_module_by_id id rest in if same_key k id then rest else (k, x) ∷ rest'
