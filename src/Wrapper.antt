-- ===== src/Wrapper.antt =====
-- wrappers/SacsWrapper.h, which calls the shared library, and wrappers/SacsWrapperNoLib.h, which has
-- the manager linked in.
pub mod Marshalling
use sacs.Prelude.{
  true, false, codes, ◌&&◌, Bool, List, Option, Result, Text, [], if◌then◌else◌, length, map,
  negsuc, ok, pos, some, ℕ, ℤ, ◌++◌, ◌==◌, ◌>>=◌, ◌∷◌,
}
use sacs.Json.{JsonLib}
use sacs.Module.{Property}
use sacs.ModuleManager.Loop.{register_new}
use sacs.SacsLib.{
  init_manager, PropertyArrays, char_to_bool, lib_register_module, lib_unregister_module,
  lib_update_properties,
}
use sacs.State.{Net, Task, World}
use sacs.ModuleManager.{init, unregister, update_properties}

-- ModuleProperty::Type
pub data PropertyType : Type 0 where
  button button_sw button_sw_in text text_bt text_ro text_area text_area_bt text_area_ro log
        script :
      PropertyType

-- The cast to `int`
abbrev pub type_no : PropertyType → ℤ
type_no button = pos 0
type_no button_sw = pos 1
type_no button_sw_in = pos 2
type_no text = pos 3
type_no text_bt = pos 4
type_no text_ro = pos 5
type_no text_area = pos 6
type_no text_area_bt = pos 7
type_no text_area_ro = pos 8
type_no log = pos 9
type_no script = pos 10

-- The values in the order of their numbers.
abbrev pub property_types : List PropertyType
property_types =
    button ∷ button_sw ∷ button_sw_in ∷ text ∷ text_bt ∷ text_ro ∷ text_area ∷ text_area_bt
    ∷ text_area_ro ∷ log ∷ script ∷ []

pub record ModuleProperty : Type 0 where
  pub type : PropertyType
  pub name : Text
  pub default_value : Text

-- SacsWrapper::IsPropertyTypeForReadOnly, a `char`
unfoldable pub is_property_type_for_read_only : PropertyType → ℕ
is_property_type_for_read_only script = 1
is_property_type_for_read_only _ = 0

-- What `strcpy` writes of a std::string: the bytes up to the first NUL, and a NUL.
unfoldable pub copy_c_str : Text → Text
copy_c_str [] = 0 ∷ []
copy_c_str (c ∷ rest) = let more = copy_c_str rest in if c == 0 then 0 ∷ [] else c ∷ more

-- SacsWrapper::StrToChrA: the memory from the new pointer on, as far as it is written.
unfoldable pub str_to_chr_a : Text → Text
unfolding copy_c_str
str_to_chr_a [] = 0 ∷ []
str_to_chr_a (c ∷ rest) = copy_c_str (c ∷ rest)

-- The arrays that SacsWrapper::RegisterModule fills.
unfoldable pub property_arrays : List ModuleProperty → PropertyArrays
unfolding str_to_chr_a is_property_type_for_read_only
property_arrays ps = record {
  types = map (λ (p : ModuleProperty). type_no p.type) ps;
  names = map (λ (p : ModuleProperty). str_to_chr_a p.name) ps;
  defaults = map (λ (p : ModuleProperty). str_to_chr_a p.default_value) ps;
  read_only = map (λ (p : ModuleProperty). is_property_type_for_read_only p.type) ps;
}

-- One round of the loop of SacsWrapperNoLib's RegisterModule.
unfoldable pub to_property : ModuleProperty → Property
unfolding is_property_type_for_read_only
to_property p = record {
  type = type_no p.type;
  name = p.name;
  value = p.default_value;
  read_only = char_to_bool (is_property_type_for_read_only p.type);
}

abbrev pub sacs_port : ℤ
sacs_port = pos 8079

-- The tests of SacsWrapper::SacsWrapper: dlopen finds the library, and dlsym these functions in it.
unfoldable pub loads : Bool → (Text → Bool) → Bool
loads lib_found has =
    lib_found
    && (has (codes "init")
        && (has (codes "register_module")
            && (has (codes "update_properties") && has (codes "unregister_module"))))

module _ {J : JsonLib} where
  -- SacsWrapper::SacsWrapper, with `g_mgr` before and after; the first part is _is_valid.
  unfoldable pub wrapper_new :
      Bool → (Text → Bool) → Net → Option (World J) → Bool × Option (World J)
  unfolding loads init_manager
  wrapper_new lib_found has net g_mgr =
      if loads lib_found has
      then (true, some (init_manager sacs_port net g_mgr))
      else (false, g_mgr)

  -- SacsWrapper::SacsWrapper of wrappers/SacsWrapperNoLib.h
  abbrev pub no_lib_new : Net → World J
  no_lib_new net = init sacs_port net

  -- SacsWrapper::RegisterModule. `is_valid` tells whether the library and its functions were found.
  -- `name.c_str()` is the name and a NUL.
  unfoldable pub wrapper_register_module :
      List (Task J)
      → Bool
      → Text
      → List ModuleProperty
      → Option ℕ
      → Option (World J)
      → Result (ℤ × Option (World J))
  unfolding property_arrays lib_register_module
  wrapper_register_module meanwhile is_valid name ps callback g_mgr =
      if is_valid
      then lib_register_module meanwhile (name ++ 0 ∷ []) (length ps) (property_arrays ps) callback
          g_mgr
      else ok (negsuc 1, g_mgr)

  -- SacsWrapper::UpdateProperties
  unfoldable pub wrapper_update_properties :
      Bool → ℤ → List (ℤ × Text) → Option (World J) → Result (Option (World J))
  unfolding copy_c_str lib_update_properties
  wrapper_update_properties is_valid module_id us g_mgr =
      if is_valid
      then (do
        w ←
            lib_update_properties module_id (length us) (map (λ (u : ℤ × Text). u.0) us)
              (map (λ (u : ℤ × Text). copy_c_str u.1) us) g_mgr
        ok (some w))
      else ok g_mgr

  -- RegisterModule of wrappers/SacsWrapperNoLib.h
  unfoldable pub no_lib_register_module :
      List (Task J) → Text → List ModuleProperty → Option ℕ → World J → Result (ℤ × World J)
  unfolding to_property register_new
  no_lib_register_module meanwhile name ps callback w =
      register_new meanwhile name (map to_property ps) callback w

  -- SacsWrapper::UnregisterModule
  unfoldable pub wrapper_unregister_module : Bool → ℤ → Option (World J) → Result (Option (World J))
  unfolding lib_unregister_module
  wrapper_unregister_module is_valid module_id g_mgr =
      if is_valid then (do w ← lib_unregister_module module_id g_mgr; ok (some w)) else ok g_mgr

  -- UnregisterModule of wrappers/SacsWrapperNoLib.h
  unfoldable pub no_lib_unregister_module : ℤ → World J → Result (World J)
  unfolding unregister
  no_lib_unregister_module = unregister

  -- UpdateProperties of wrappers/SacsWrapperNoLib.h
  unfoldable pub no_lib_update_properties : ℤ → List (ℤ × Text) → World J → Result (World J)
  unfolding update_properties
  no_lib_update_properties = update_properties
