-- ===== src/Jni/Java/Exported.antt =====
-- JniLib.cpp: the functions that Java calls.
use sacs.Jni.Java.{JavaEnv, jni_props_to_vec, jni_update_props_to_vec}
use sacs.Prelude.{List, Option, Result, null_deref, or_throw, some, ℕ, ℤ, ◌>>=◌}
use sacs.Json.{JsonLib}
use sacs.State.{Task, World}
use sacs.Wrapper.{no_lib_register_module, no_lib_unregister_module, no_lib_update_properties}

module _ (E : JavaEnv) where
  open E use {Field, Object, utf_chars}

  module _ {J : JsonLib} where
    -- Java_dbpotato_net_sacs_SacsWrapper_RegisterModule. `callback` is JniGlue::Callback.
    unfoldable pub java_register_module :
        Field
        → Field
        → Field
        → ℕ
        → List (Task J)
        → Option Object
        → Option Object
        → World J
        → Result (ℤ × World J)
    unfolding jni_props_to_vec no_lib_register_module
    java_register_module type_field name_field value_field callback meanwhile name properties w = do
      jname ← or_throw null_deref name
      ps ← jni_props_to_vec E type_field name_field value_field properties
      no_lib_register_module meanwhile (utf_chars jname) ps (some callback) w

    -- Java_dbpotato_net_sacs_SacsWrapper_UnregisterModule
    unfoldable pub java_unregister_module : ℤ → World J → Result (World J)
    unfolding no_lib_unregister_module
    java_unregister_module module_id w = no_lib_unregister_module module_id w

    -- Java_dbpotato_net_sacs_SacsWrapper_UpdateProperties
    unfoldable pub java_update_properties :
        Field → Field → ℤ → Option Object → World J → Result (World J)
    unfolding jni_update_props_to_vec no_lib_update_properties
    java_update_properties id_field value_field module_id properties w = do
      us ← jni_update_props_to_vec E id_field value_field properties
      no_lib_update_properties module_id us w
