-- ===== src/Page/Mirror.antt =====
-- When a page shows the registry of a process.
pub mod Widgets
pub mod Updates
pub mod Listed
pub mod Titles
pub mod Buttons
pub mod Modules
pub mod Steps
use sacs.Prelude.{
  Bool, List, Option, Text, [], codes, false, if◌then◌else◌, map, none, some, suc, true, ℕ, ℤ, ◌++◌,
  ◌==◌, ◌∷◌, ◌≡◌, ◌≤◌, ◌⊎◌,
}
use sacs.Maps.{Map}
use sacs.Module.{Module, Property}
use sacs.Page.{
  Content, ModuleButton, Page, PageModule, Widget, area, checked, from_id, history, line, pressed,
  scripted,
}
use sacs.Page.Selector.{button_of}
use sacs.Page.Environment.{Browser}
use sacs.Wrapper.{
  PropertyType, button, button_sw, button_sw_in, text, text_bt, text_ro, text_area, text_area_bt,
  text_area_ro, log, script,
}

-- Numbers that rise, from the first bound on and below the second.
abbrev pub Rising : ℕ → List ℕ → ℕ → Type 0
Rising lo [] hi = lo ≤ hi
Rising lo (n ∷ ns) hi = (lo ≤ n) × Rising (suc n) ns hi

abbrev pub has_title {ℓ} : {A : Type ℓ} → ℕ → List (ℕ × A) → Bool
has_title nr [] = false
has_title nr ((n, title) ∷ ts) = if n == nr then true else has_title nr ts

-- The sorts of content.
pub data Family : Type 0 where
  presses switches lines areas histories scripts : Family

abbrev pub family : PropertyType → Family
family button = presses
family button_sw = switches
family button_sw_in = switches
family text = lines
family text_bt = lines
family text_ro = lines
family text_area = areas
family text_area_bt = areas
family text_area_ro = areas
family log = histories
family script = scripts

-- The type that the widget of a property carries
abbrev pub node_type : PropertyType → PropertyType
node_type text_area_bt = text_area_ro
node_type t = t

-- The types whose widgets send what is entered in them themselves, or send nothing
abbrev pub acts_alone : PropertyType → Bool
acts_alone button_sw = false
acts_alone text = false
acts_alone text_area = false
acts_alone _ = true

module _ {B : Browser} where
  open B use {Value, loosely, input_value, area_value, shown}

  -- A log begins with the value, and where the value is empty may be empty itself.
  abbrev pub Logged : Content B → Text → Type 0
  Logged (history s) v =
      (s ≡ area_value (B.string v))
      ⊎ ((older : Text) × (s ≡ area_value (B.string (shown (B.string v) ++ b'\n' ∷ older))))
      ⊎ ((v ≡ []) × (s ≡ []))
  Logged _ v = Unit {0}

  -- What the buttons in the selector stand for and show, in their order
  abbrev pub listed : List (ModuleButton B) → List (ℕ × Value)
  listed [] = []
  listed (b ∷ bs) =
      let rest = listed bs in if b.in_selector then (b.module_no, b.label) ∷ rest else rest

  abbrev pub numbers : List (ModuleButton B) → List ℕ
  numbers bs = map (λ (b : ModuleButton B). b.module_no) bs

  abbrev pub titles : List (Value × PageModule B) → List (ℕ × Value)
  titles fs = map (λ (f : Value × PageModule B). (f.1.object_no, f.1.name)) fs

  abbrev pub family_of : Content B → Family
  family_of pressed = presses
  family_of (checked b) = switches
  family_of (line s) = lines
  family_of (area s) = areas
  family_of (history s) = histories
  family_of (scripted object) = scripts

module _ (B : Browser) where
  open B use {Value, loosely, input_value, area_value}

  -- What a widget that shows the value alone shows. A log shows earlier values too, and a script
  -- what it likes.
  abbrev pub plain : Family → Text → Option (Content B)
  plain presses s = some pressed
  plain switches s = some (checked (loosely (B.string s) (codes "1")))
  plain lines s = some (line (input_value (B.string s)))
  plain areas s = some (area (area_value (B.string s)))
  plain histories s = none
  plain scripts s = none

  abbrev pub label_of : PropertyType → Text → Option Value
  label_of script name = none
  label_of _ name = some (B.string name)

  -- A widget is that of the property's type, has its name, and shows its value. A property that is
  -- read-only keeps its value where the page shows the update.
  pub record Shows (p : Property) (w : Widget B) : Type 0 where
    pub type : PropertyType
    pub known : from_id B (B.number p.type) ≡ some type
    pub typed : w.type ≡ node_type type
    pub independent : w.is_independent ≡ acts_alone type
    pub labelled : w.label ≡ label_of type p.name
    pub fits : family_of w.content ≡ family type
    pub value :
        (c : Content B) → p.read_only ≡ false → plain (family type) p.value ≡ some c → w.content ≡ c
    pub logged : p.read_only ≡ false → Logged w.content p.value

  -- Widgets in the order of the properties.
  abbrev pub ShowsEach : List Property → List (Widget B) → Type 0
  ShowsEach [] [] = Unit {0}
  ShowsEach (p ∷ ps) (w ∷ ws) = Shows p w × ShowsEach ps ws
  ShowsEach _ _ = ⊥

  pub record ShowsModule (m : Module) (pm : PageModule B) : Type 0 where
    pub id : pm.id ≡ B.number m.id
    pub name : pm.name ≡ B.string m.name
    pub properties : ShowsEach m.properties pm.properties

  abbrev pub HasButton : List (ModuleButton B) → ℤ × Module → Value × PageModule B → Type 0
  HasButton bs (k, m) (v, pm) =
      (v ≡ B.number k)
      × (m.id ≡ k)
      × ShowsModule m pm
      × ((b : ModuleButton B) × (button_of pm.object_no bs ≡ some b))

  -- The entries of the page in the order of those of the registry, each with its button.
  abbrev pub ShowsEntries :
      List (ModuleButton B) → Map Module → List (Value × PageModule B) → Type 0
  ShowsEntries bs [] [] = Unit {0}
  ShowsEntries bs (e ∷ es) (f ∷ fs) = HasButton bs e f × ShowsEntries bs es fs
  ShowsEntries bs _ _ = ⊥

  -- The page shows the modules of the registry, in their order. The buttons in the selector are
  -- those of these modules, in their order, each with the name of its module. The module that is
  -- selected is one of them, and is the one in the container.
  pub record Mirrors (modules : Map Module) (p : Page B) : Type 0 where
    pub entries : ShowsEntries p.buttons modules p.modules
    pub selected :
        (nr : ℕ) → p.current ≡ some nr → (b : ModuleButton B) × (button_of nr p.buttons ≡ some b)
    pub selector : listed p.buttons ≡ titles p.modules
    pub in_place :
        (nr : ℕ)
        → p.current ≡ some nr
        → (has_title nr (listed p.buttons) ≡ true) × (p.contained ≡ some nr)
    -- The buttons were made in their order, each for a new module.
    pub rising : Rising 0 (numbers p.buttons) p.created
