-- ===== src/Jni/Java/Properties.antt =====
-- Arrays of Java as the vectors that JniGlue makes of them, and the arrays of a callback.
use sacs.Jni.Java.Exported.{java_register_module, java_update_properties}
use sacs.Jni.Java.{
  JavaEnv, java_properties, java_property, java_update, jni_props_to_vec, jni_update_props_to_vec,
  to_property_type,
}
use sacs.Wrapper.Marshalling.{c_str-append, cut_update, read_from-updates, until_nul}
use sacs.Prelude.{
  List, Option, Result, Text, [], arith, length, map, none, null_deref, ok, refl, some, throw, ℕ, ℤ,
  ◌+◌, ◌>>=◌, ◌∷◌, ◌≡◌,
}
use sacs.Jni.{read_callback}
use sacs.Json.{JsonLib}
use sacs.ModuleManager.{c_buffer, call_back}
use sacs.SacsLib.{c_str, read_from}
use sacs.State.{Task, World, called}
use sacs.Wrapper.{
  ModuleProperty, PropertyType, button, button_sw, button_sw_in, log, no_lib_register_module,
  no_lib_update_properties, script, text, text_area, text_area_bt, text_area_ro, text_bt, text_ro,
  type_no,
}

to_property_type-type_no : (t : PropertyType) → to_property_type (type_no t) ≡ ok t
unfolding to_property_type
to_property_type-type_no button = refl
to_property_type-type_no button_sw = refl
to_property_type-type_no button_sw_in = refl
to_property_type-type_no text = refl
to_property_type-type_no text_bt = refl
to_property_type-type_no text_ro = refl
to_property_type-type_no text_area = refl
to_property_type-type_no text_area_bt = refl
to_property_type-type_no text_area_ro = refl
to_property_type-type_no log = refl
to_property_type-type_no script = refl

module _ {A : Type 0} where
  -- The elements that are not null
  unfoldable pub present : List (Option A) → List A
  present [] = []
  present (none ∷ xs) = present xs
  present (some a ∷ xs) = a ∷ present xs

  -- All elements, where none is null
  unfoldable pub all_present : List (Option A) → Result (List A)
  all_present [] = ok []
  all_present (none ∷ xs) = throw null_deref
  all_present (some a ∷ xs) = do rest ← all_present xs; ok (a ∷ rest)

module _ (E : JavaEnv) where
  open E use {Field, Object, array_length, array_element, int_field, object_field, utf_chars}

  module _ {A : Type 0} (Stands : Object → A → Type 0) (array : Object) where
    -- From index `i` on the array has these elements, `none` for null, and no more.
    abbrev pub Holds : ℕ → List (Option A) → Type 0
    Holds i [] = array_length array ≡ i
    Holds i (none ∷ xs) = (array_element array i ≡ none) × Holds (i + 1) xs
    Holds i (some a ∷ xs) =
        ((o : Object) × (array_element array i ≡ some o) × Stands o a) × Holds (i + 1) xs

    Holds-length : (i : ℕ) (xs : List (Option A)) → Holds i xs → array_length array ≡ i + length xs
    Holds-length i [] h = omega (arith, h)
    Holds-length i (none ∷ xs) (_, h) = omega (arith, Holds-length (i + 1) xs h)
    Holds-length i (some a ∷ xs) (_, h) = omega (arith, Holds-length (i + 1) xs h)

    Holds-all : (xs : List (Option A)) → Holds 0 xs → array_length array ≡ length xs
    Holds-all xs h = omega (arith, Holds-length 0 xs h)

  -- A string of Java with these bytes
  abbrev pub IsString : Option Object → Text → Type 0
  IsString o s = (j : Object) × (o ≡ some j) × (utf_chars j ≡ s)

  module _ (type_field name_field value_field : Field) where
    abbrev pub IsProperty : Object → ModuleProperty → Type 0
    IsProperty o p =
        (int_field o type_field ≡ type_no p.type)
        × IsString (object_field o name_field) p.name
        × IsString (object_field o value_field) p.default_value

    java_property-IsProperty :
        (o : Object) (p : ModuleProperty)
        → IsProperty o p
        → java_property E type_field name_field value_field o ≡ ok p
    unfolding java_property
    java_property-IsProperty o p (t, (n, name_at, n_is), (v, value_at, v_is)) =
        rw (name_at, n_is, value_at, v_is, t, to_property_type-type_no p.type) refl

    java_properties-Holds :
        (array : Object) (i : ℕ) (xs : List (Option ModuleProperty))
        → Holds IsProperty array i xs
        → java_properties E (java_property E type_field name_field value_field) (length xs) i array
          ≡ ok (present xs)
    unfolding java_properties present
    java_properties-Holds array i [] h = refl
    java_properties-Holds array i (none ∷ xs) (e, h) =
        rw e (java_properties-Holds array (i + 1) xs h)
    java_properties-Holds array i (some p ∷ xs) ((o, e, is), h) =
        rw (e, java_property-IsProperty o p is, java_properties-Holds array (i + 1) xs h) refl

    jni_props_to_vec-Holds :
        (array : Object) (xs : List (Option ModuleProperty))
        → Holds IsProperty array 0 xs
        → jni_props_to_vec E type_field name_field value_field (some array) ≡ ok (present xs)
    unfolding jni_props_to_vec
    jni_props_to_vec-Holds array xs h =
        rw (Holds-all IsProperty array xs h) (java_properties-Holds array 0 xs h)

    -- To register a module from Java, with a name and an array of which each element is null or
    -- stands for a property, is to register it with the bytes of the name and the properties that
    -- are not null, in order.
    pub java_register_module-present :
        {J : JsonLib} (callback : ℕ) (meanwhile : List (Task J)) (name array : Object)
        (xs : List (Option ModuleProperty)) (w : World J)
        → Holds IsProperty array 0 xs
        → java_register_module E type_field name_field value_field callback meanwhile
            (some name)
            (some array)
            w
          ≡ no_lib_register_module meanwhile (utf_chars name) (present xs) (some callback) w
    unfolding java_register_module
    java_register_module-present callback meanwhile name array xs w h =
        rw (jni_props_to_vec-Holds array xs h) refl

  module _ (id_field value_field : Field) where
    abbrev pub IsUpdate : Object → ℤ × Text → Type 0
    IsUpdate o u = (int_field o id_field ≡ u.0) × IsString (object_field o value_field) u.1

    java_updates-Holds :
        (array : Object) (i : ℕ) (xs : List (Option (ℤ × Text)))
        → Holds IsUpdate array i xs
        → read_from (java_update E id_field value_field array) (length xs) i ≡ all_present xs
    unfolding read_from java_update all_present
    java_updates-Holds array i [] h = refl
    java_updates-Holds array i (none ∷ xs) (e, h) = rw e refl
    java_updates-Holds array i (some u ∷ xs) ((o, e, (id_is, (v, value_at, v_is))), h) =
        rw (e, value_at, v_is, id_is, java_updates-Holds array (i + 1) xs h) refl

    -- To update properties from Java, with an array of which each element is null or stands for an
    -- update, is to update them directly where no element is null, and dereferences null where one
    -- is.
    pub java_update_properties-all_present :
        {J : JsonLib} (module_id : ℤ) (array : Object) (xs : List (Option (ℤ × Text))) (w : World J)
        → Holds IsUpdate array 0 xs
        → java_update_properties E id_field value_field module_id (some array) w
          ≡ (do us ← all_present xs; no_lib_update_properties module_id us w)
    unfolding java_update_properties jni_update_props_to_vec
    java_update_properties-all_present module_id array xs w h =
        rw (Holds-all IsUpdate array xs h, java_updates-Holds array 0 xs h) refl

pub c_str-c_buffer : (s : Text) → c_str (c_buffer s) ≡ ok (until_nul s)
unfolding c_buffer
c_str-c_buffer [] = c_str-append [] []
c_str-c_buffer (c ∷ s) = c_str-append (c ∷ s) []

-- The arrays that the manager passes to a callback are read back by JniGlue as the module's id and
-- the updates, in order, with each value cut at its first NUL.
pub read_callback-call_back :
    (f : ℕ) (module_id : ℤ) (us : List (ℤ × Text))
    → (count : ℕ) × (property_no : List ℤ) × (property_val : List Text) × (call_back f module_id us
        ≡ called f module_id count property_no property_val)
      × (read_callback module_id count property_no property_val
          ≡ ok (record { module_id = module_id; update_vec = map cut_update us }))
unfolding call_back read_callback
read_callback-call_back f module_id us = (
  length us,
  map (λ (u : ℤ × Text). u.0) us,
  map (λ (u : ℤ × Text). c_buffer u.1) us,
  refl,
  rw (read_from-updates c_buffer c_str-c_buffer us) refl,
)
