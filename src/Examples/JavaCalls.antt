-- ===== src/Examples/JavaCalls.antt =====
-- A Java machine with a few objects, to call the library from.
use sacs.Jni.Java.Calls.{ArrayLaws, JavaArrays, java_sees_updates, nulls, put, update_array}
use sacs.Jni.Java.Exported.{java_register_module, java_update_properties}
use sacs.Jni.Java.{
  Descs, JavaEnv, PropertyDesc, find_property_desc, find_update_desc, find_wrapper_desc, init_glue,
  init_update, init_wrapper,
}
use sacs.State.{called}
use sacs.Jni.Java.Found.{Ready, init_glue-Ready}
use sacs.Prelude.{
  List, Option, Text, [], codes, if◌then◌else◌, none, null_deref, ok, pos, refl, some, text_eq,
  throw, true, ℕ, ℤ, ◌==◌, ◌||◌, ◌∷◌, ◌≡◌,
}
use sacs.Examples.Scene.{host_world}
use sacs.Jni.{QueuedCallback, read_callback}
use sacs.Jni.Java.Properties.{
  all_present, java_register_module-present, java_update_properties-all_present, present,
}
use sacs.ModuleManager.{call_back}
use sacs.Wrapper.{ModuleProperty, PropertyType, no_lib_register_module}
use sacs.Wrapper.Marshalling.{until_nul}

-- 0 is the string "lamp", 1 a property, 2 and 3 its strings, 4 an array with the property and a null,
-- 5 one with an update and a null, 6 the update, and 7 its string.
abbrev length_of : ℕ → ℕ
length_of o = if o == 4 || o == 5 then 2 else 0

abbrev element_of : ℕ → ℕ → Option ℕ
element_of o i =
    if i == 0 then (if o == 4 then some 1 else if o == 5 then some 6 else none) else none

abbrev string_of : ℕ → Text → Option ℕ
string_of o f =
    if o == 1
    then (if text_eq f (codes "name") then some 2 else some 3)
    else if o == 6
    then some 7
    else none

abbrev chars_of : ℕ → Text
chars_of o =
    if o == 0
    then codes "lamp"
    else if o == 2
    then codes "power"
    else if o == 3
    then codes "0"
    else codes "1"

abbrev machine : JavaEnv
machine = record {
  Class = Text;
  Field = Text;
  Method = Text;
  Object = ℕ;
  find_class = λ name. some name;
  new_global_ref = λ c. c;
  get_field_id = λ c name sig. some name;
  get_method_id = λ c name sig. some name;
  get_static_method_id = λ c name sig. some name;
  array_length = length_of;
  array_element = element_of;
  int_field = λ o f. if o == 1 then pos 1 else pos 0;
  object_field = string_of;
  utf_chars = chars_of;
}

-- A machine without the class of updates
abbrev incomplete : JavaEnv
incomplete = record machine {
  find_class = λ name.
      if text_eq name (codes "dbpotato/net/sacs/SacsWrapper$ModulePropertyUpdate")
      then none
      else some name;
}

abbrev all_found : Descs machine
all_found = record {
  property_desc = some (record {
    class_id = some (codes "dbpotato/net/sacs/SacsWrapper$ModuleProperty");
    type = some (codes "type");
    name = some (codes "name");
    value = some (codes "value");
  });
  update_desc = some (record {
    class_id = some (codes "dbpotato/net/sacs/SacsWrapper$ModulePropertyUpdate");
    constructor = some (codes "<init>");
    id = some (codes "id");
    value = some (codes "value");
  });
  sacs_desc = some (record {
    class_id = some (codes "dbpotato/net/sacs/SacsWrapper");
    on_props_updated = some (codes "onPropertiesUpdated");
  });
  msg_thread = true;
}

init_glue-Ready_example : Ready machine all_found
unfolding init_glue init_update init_wrapper find_property_desc find_update_desc find_wrapper_desc
init_glue-Ready_example = init_glue-Ready machine refl

abbrev property_found : PropertyDesc incomplete
property_found = record {
  class_id = some (codes "dbpotato/net/sacs/SacsWrapper$ModuleProperty");
  type = some (codes "type");
  name = some (codes "name");
  value = some (codes "value");
}

abbrev power : ModuleProperty
power = record { type = PropertyType.button_sw; name = codes "power"; default_value = codes "0" }

java_register_module-present_example :
    java_register_module machine
      (codes "type")
      (codes "name")
      (codes "value")
      9
      []
      (some 0)
      (some 4)
      host_world
    ≡ no_lib_register_module [] (codes "lamp") (power ∷ []) (some 9) host_world
unfolding present text_eq
java_register_module-present_example =
    java_register_module-present machine (codes "type") (codes "name") (codes "value") 9 [] 0 4
      (some power ∷ none ∷ []) host_world
      ((1, refl, (refl, (2, refl, refl), (3, refl, refl))), (refl, refl))

java_update_properties-all_present_example :
    java_update_properties machine (codes "id") (codes "value") (pos 0) (some 5) host_world
    ≡ throw null_deref
unfolding all_present
java_update_properties-all_present_example =
    java_update_properties-all_present machine (codes "id") (codes "value") (pos 0) 5
      (some (pos 0, codes "1") ∷ none ∷ []) host_world
      ((6, refl, (refl, (7, refl, refl))), (refl, refl))

-- Arrays as lists
abbrev list_arrays : JavaArrays
list_arrays = record {
  Array = List (Option (ℤ × Text));
  Object = ℤ × Text;
  new_object_array = nulls;
  new_object = λ id value. (id, value);
  set_element = λ a i o. put i o a;
  elements = λ a. a;
}

list_arrays-ArrayLaws : ArrayLaws list_arrays
list_arrays-ArrayLaws = record { elements-new = λ n. refl; elements-set = λ a i o. refl }

abbrev two_updates : List (ℤ × Text)
two_updates = (pos 0, 49 ∷ 0 ∷ 50 ∷ []) ∷ (pos 2, []) ∷ []

java_sees_updates_example :
    (count : ℕ) × (property_no : List ℤ) × (property_val : List Text) × (c : QueuedCallback)
    × (a : List (Option (ℤ × Text))) × (call_back 9 (pos 5) two_updates
        ≡ called 9 (pos 5) count property_no property_val)
    × (read_callback (pos 5) count property_no property_val ≡ ok c)
    × (c.module_id ≡ pos 5)
    × (update_array list_arrays c.update_vec ≡ ok a)
    × (a ≡ some (pos 0, 49 ∷ []) ∷ some (pos 2, []) ∷ [])
unfolding until_nul
java_sees_updates_example =
    java_sees_updates list_arrays list_arrays-ArrayLaws 9 (pos 5) two_updates
