-- ===== src/Jni/Java.antt =====
-- JniGlue.cpp: what the library looks up in Java, and what Java passes to it. The Java virtual machine
-- is a parameter: the functions of JNIEnv that the code calls.
pub mod Found
pub mod Exported
pub mod Properties
pub mod Calls
use sacs.Prelude.{
  Bool, List, Option, Result, Text, [], bad_enum, codes, false, get_elem?, if◌then◌else◌, negsuc,
  none, null_deref, ok, or_throw, pos, some, suc, throw, true, zero, ℕ, ℤ, ◌&&◌, ◌+◌, ◌>>=◌, ◌∷◌,
}
use sacs.SacsLib.{read_from}
use sacs.Wrapper.{ModuleProperty, PropertyType, property_types}

-- `none` is null. A class, a field, a method and an object are what the machine makes of them.
pub record JavaEnv : Type 1 where
  pub Class : Type 0
  pub Field : Type 0
  pub Method : Type 0
  pub Object : Type 0
  pub find_class : Text → Option Class
  pub new_global_ref : Option Class → Option Class
  pub get_field_id : Class → Text → Text → Option Field
  pub get_method_id : Class → Text → Text → Option Method
  pub get_static_method_id : Class → Text → Text → Option Method
  pub array_length : Object → ℕ
  pub array_element : Object → ℕ → Option Object
  pub int_field : Object → Field → ℤ
  pub object_field : Object → Field → Option Object
  -- The bytes of GetStringUTFChars, which hold no NUL.
  pub utf_chars : Object → Text

-- The cast from `int`. What a number with no enumerator gives is not modelled.
unfoldable pub to_property_type : ℤ → Result PropertyType
to_property_type (pos n) = or_throw bad_enum (get_elem? property_types n)
to_property_type (negsuc n) = throw bad_enum

module _ (E : JavaEnv) where
  open E use {
    Class, Field, Method, Object, find_class, new_global_ref, get_field_id, get_method_id,
    get_static_method_id, array_length, array_element, int_field, object_field, utf_chars,
  }

  -- JniPropertyDesc, JniPropertyUpdateDesc and JniSacsWrapperDesc
  pub record PropertyDesc : Type 0 where
    pub class_id : Option Class
    pub type : Option Field
    pub name : Option Field
    pub value : Option Field

  pub record UpdateDesc : Type 0 where
    pub class_id : Option Class
    pub constructor : Option Method
    pub id : Option Field
    pub value : Option Field

  pub record WrapperDesc : Type 0 where
    pub class_id : Option Class
    pub on_props_updated : Option Method

  -- The fields of JniGlue that JniGlue::Init sets; a part is `none` until it is set.
  pub record Descs : Type 0 where
    pub property_desc : Option PropertyDesc
    pub update_desc : Option UpdateDesc
    pub sacs_desc : Option WrapperDesc
    pub msg_thread : Bool

  abbrev pub no_descs : Descs
  no_descs = record {
    property_desc = none;
    update_desc = none;
    sacs_desc = none;
    msg_thread = false;
  }

  abbrev pub is_set {ℓ} : {A : Type ℓ} → Option A → Bool
  is_set none = false
  is_set (some a) = true

  -- A look-up in a class reference that is null
  abbrev pub in_class {ℓ} : {A : Type ℓ} → Option Class → (Class → A) → Result A
  in_class none f = throw null_deref
  in_class (some c) f = ok (f c)

  abbrev pub string_sig : Text
  string_sig = codes "Ljava/lang/String;"

  -- The three parts of JniGlue::Init, by its early returns. The test of the second part is of the
  -- class of the first, and so passes.
  unfoldable pub find_property_desc : Class → Result PropertyDesc
  find_property_desc property_class = do
    let class_id = new_global_ref (some property_class)
    type ← in_class class_id (λ c. get_field_id c (codes "type") (codes "I"))
    name ← in_class class_id (λ c. get_field_id c (codes "name") string_sig)
    value ← in_class class_id (λ c. get_field_id c (codes "value") string_sig)
    ok (record { class_id = class_id; type = type; name = name; value = value })

  unfoldable pub find_update_desc : Option Class → Result UpdateDesc
  find_update_desc update_class = do
    let class_id = new_global_ref update_class
    make ←
        in_class class_id (λ c. get_method_id c (codes "<init>") (codes "(ILjava/lang/String;)V"))
    id ← in_class class_id (λ c. get_field_id c (codes "id") (codes "I"))
    value ← in_class class_id (λ c. get_field_id c (codes "value") string_sig)
    ok (record { class_id = class_id; constructor = make; id = id; value = value })

  unfoldable pub find_wrapper_desc : Class → Result WrapperDesc
  find_wrapper_desc wrapper_class = do
    let class_id = new_global_ref (some wrapper_class)
    updated ← in_class class_id (λ c.
        get_static_method_id c (codes "onPropertiesUpdated")
          (codes "(I[Ldbpotato/net/sacs/SacsWrapper$ModulePropertyUpdate;)V"))
    ok (record { class_id = class_id; on_props_updated = updated })

  unfoldable pub init_wrapper : Descs → Result (Bool × Descs)
  unfolding find_wrapper_desc
  init_wrapper g = elim (find_class (codes "dbpotato/net/sacs/SacsWrapper")) [
    | none ↦ ok (false, g)
    | some wrapper_class ↦ (do
      w ← find_wrapper_desc wrapper_class
      let g' = record g { sacs_desc = some w }
      ok (
          if is_set w.on_props_updated
          then (true, record g' { msg_thread = true })
          else (false, g')))
  ]

  unfoldable pub init_update : Descs → Result (Bool × Descs)
  unfolding find_update_desc init_wrapper
  init_update g = do
    u ← find_update_desc (find_class (codes "dbpotato/net/sacs/SacsWrapper$ModulePropertyUpdate"))
    let g' = record g { update_desc = some u }
    if is_set u.id && is_set u.value then init_wrapper g' else ok (false, g')

  -- JniGlue::Init
  unfoldable pub init_glue : Result (Bool × Descs)
  unfolding find_property_desc init_update
  init_glue = elim (find_class (codes "dbpotato/net/sacs/SacsWrapper$ModuleProperty")) [
    | none ↦ ok (false, no_descs)
    | some property_class ↦ (do
      p ← find_property_desc property_class
      let g = record no_descs { property_desc = some p }
      if is_set p.type && (is_set p.name && is_set p.value) then init_update g else ok (false, g))
  ]

  -- A field of an object, by a field id that Init has found.
  abbrev pub string_field : Object → Field → Result Text
  string_field o f = do s ← or_throw null_deref (object_field o f); ok (utf_chars s)

  -- One round of the loop of JniGlue::JniPropsToVec for an element that is not null.
  unfoldable pub java_property : Field → Field → Field → Object → Result ModuleProperty
  unfolding to_property_type
  java_property type_field name_field value_field jprop = do
    name ← string_field jprop name_field
    value ← string_field jprop value_field
    type ← to_property_type (int_field jprop type_field)
    ok (record { type = type; name = name; default_value = value })

  -- The loop, by the rounds that are left.
  unfoldable pub java_properties :
      (Object → Result ModuleProperty) → ℕ → ℕ → Object → Result (List ModuleProperty)
  java_properties read zero i array = ok []
  java_properties read (suc rounds) i array = elim (array_element array i) [
    | none ↦ java_properties read rounds (i + 1) array
    | some jprop ↦ (do
      p ← read jprop
      rest ← java_properties read rounds (i + 1) array
      ok (p ∷ rest))
  ]

  -- JniGlue::JniPropsToVec, with the fields that Init has found
  unfoldable pub jni_props_to_vec :
      Field → Field → Field → Option Object → Result (List ModuleProperty)
  unfolding java_property java_properties
  jni_props_to_vec type_field name_field value_field none = ok []
  jni_props_to_vec type_field name_field value_field (some array) =
      java_properties (java_property type_field name_field value_field) (array_length array) 0 array

  -- One round of the loop of JniGlue::JniUpdatePropsToVec, which does not test the element.
  unfoldable pub java_update : Field → Field → Object → ℕ → Result (ℤ × Text)
  java_update id_field value_field array i = do
    jprop ← or_throw null_deref (array_element array i)
    value ← string_field jprop value_field
    ok (int_field jprop id_field, value)

  -- JniGlue::JniUpdatePropsToVec, which does not test the array.
  unfoldable pub jni_update_props_to_vec : Field → Field → Option Object → Result (List (ℤ × Text))
  unfolding java_update read_from
  jni_update_props_to_vec id_field value_field jni_array = do
    array ← or_throw null_deref jni_array
    read_from (java_update id_field value_field array) (array_length array) 0
