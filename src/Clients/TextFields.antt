-- ===== src/Clients/TextFields.antt =====
pub mod FromPage
use sacs.Wrapper.{
  no_lib_update_properties, text, text_bt, text_ro, wrapper_register_module,
  wrapper_update_properties,
}
use sacs.Wrapper.{no_lib_update_properties, wrapper_register_module, wrapper_update_properties}
use sacs.Prelude.{
  Bool, Bool-cases, List, Option, Result, Text, [], arith, codes, if◌then◌else◌, inl, inr, ok, pos,
  refl, some, true, ℕ, ℤ, ◌==ℤ◌, ◌==◌, ◌>>=◌, ◌||◌, ◌∷◌, ◌≡◌,
}
use sacs.Clients.{Callback, answer, property}
use sacs.Jni.Java.Properties.{c_str-c_buffer}
use sacs.Json.{JsonLib}
use sacs.ModuleManager.{call_back}
use sacs.SacsLib.{c_str, read_array}
use sacs.State.{Task, World}
use sacs.Wrapper.{no_lib_update_properties, wrapper_register_module, wrapper_update_properties}
use sacs.Wrapper.Marshalling.{until_nul, until_nul-until_nul, wrapper_update_properties-no_lib}

-- examples/TextFields.cpp: two fields whose new values are copied to a third one.

module _ {J : JsonLib} (is_valid : Bool) where
  unfoldable pub text_callback : Callback (Option (World J))
  unfolding read_array c_str wrapper_update_properties
  text_callback module_id count property_no property_val g_mgr =
      if count == 1
      then (do
        index ← read_array property_no 0
        if index ==ℤ pos 0 || index ==ℤ pos 2
            then (do
              value_ptr ← read_array property_val 0
              value ← c_str value_ptr
              wrapper_update_properties is_valid module_id ((pos 1, value) ∷ []) g_mgr)
            else ok g_mgr)
      else ok g_mgr

  -- main, up to the endless loop. `callback` stands for the function above.
  unfoldable pub text_main : List (Task J) → ℕ → Option (World J) → Result (ℤ × Option (World J))
  unfolding wrapper_register_module
  text_main meanwhile callback g_mgr =
      wrapper_register_module meanwhile is_valid (codes "Text Input")
        (property text "New Value" []
          ∷ property text_ro "Current Value" (codes "Default Value")
          ∷ property text_bt "Independent Value" (codes "Value")
          ∷ [])
        (some callback) g_mgr

module _ {J : JsonLib} where
  -- What the example does with the updates of its module.
  abbrev pub copy_field : ℤ → List (ℤ × Text) → World J → Result (World J)
  copy_field module_id ((i, value) ∷ []) w =
      if i ==ℤ pos 0 || i ==ℤ pos 2
      then no_lib_update_properties module_id ((pos 1, until_nul value) ∷ []) w
      else ok w
  copy_field module_id _ w = ok w

  -- When the callback of TextFields is called with updates, it sets property 1 to the value, up to
  -- its first NUL, of a single update of property 0 or 2, and does nothing at any other updates.
  pub text_callback-copy_field :
      (f : ℕ) (module_id : ℤ) (us : List (ℤ × Text)) (w : World J)
      → answer (text_callback true) (call_back f module_id us) (some w)
        ≡ (do w' ← copy_field module_id us w; ok (some w'))
  unfolding text_callback call_back read_array
  text_callback-copy_field f module_id [] w = refl
  text_callback-copy_field f module_id ((i, value) ∷ []) w =
      elim (Bool-cases (i ==ℤ pos 0 || i ==ℤ pos 2)) [
        | inl e ↦
            rw
              (
                e,
                c_str-c_buffer value,
                wrapper_update_properties-no_lib module_id ((pos 1, until_nul value) ∷ []) w,
                until_nul-until_nul value,
              )
              refl
        | inr e ↦ rw e refl
      ]
  text_callback-copy_field f module_id (u ∷ v ∷ us) w = ground arith
