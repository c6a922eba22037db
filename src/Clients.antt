-- ===== src/Clients.antt =====
-- examples: programs that register one module each, with a callback that the manager calls on the
-- thread of its loop. The callbacks and `main` reach the library through wrappers/SacsWrapper.h.
pub mod Decimal
pub mod TextFields
pub mod ButtonAndLog
pub mod CreateClose
pub mod Script
pub mod Start
use Prim.Native.String.{String}
use sacs.Prelude.{List, Result, Text, codes, ok, ℕ, ℤ}
use sacs.State.{Event, called}
use sacs.Wrapper.{ModuleProperty, PropertyType}

-- A callback, with the state that it changes
abbrev pub Callback : Type 0 → Type 0
Callback S = ℤ → ℕ → List ℤ → List Text → S → Result S

-- What a program does at an event that calls its callback.
abbrev pub answer : {S : Type 0} → Callback S → Event → S → Result S
answer callback (called f module_id count property_no property_val) s =
    callback module_id count property_no property_val s
answer callback _ s = ok s

abbrev pub property : PropertyType → String → Text → ModuleProperty
property type name default_value = record {
  type = type;
  name = codes name;
  default_value = default_value;
}
