-- ===== src/SacsLib.antt =====
-- SacsLib.cpp: the C interface of the library. An argument `char*` is the memory from it on, a
-- list of bytes; a read stops at the NUL, and one that finds none goes out of bounds.
use sacs.Prelude.{
  Bool, List, Option, Result, Text, [], get_elem?, if◌then◌else◌, negsuc, none, not, null_deref, ok,
  or_throw, out_of_range, some, suc, throw, zero, ℕ, ℤ, ◌+◌, ◌==◌, ◌>>=◌, ◌∷◌,
}
use sacs.Json.{JsonLib}
use sacs.Module.{Property}
use sacs.ModuleManager.{init, unregister, update_properties}
use sacs.ModuleManager.Loop.{register_new}
use sacs.State.{Net, Task, World}

-- std::string(const char*)
unfoldable pub c_str : Text → Result Text
c_str [] = throw out_of_range
c_str (c ∷ rest) = let more = c_str rest in if c == 0 then ok [] else (do s ← more; ok (c ∷ s))

-- The arrays of `register_module`, as far as `properties_count` reads them.
pub record PropertyArrays : Type 0 where
  pub types : List ℤ
  pub names : List Text
  pub defaults : List Text
  pub read_only : List ℕ

module _ {ℓ} {A : Type ℓ} where
  -- `*(array + i)`
  unfoldable pub read_array : List A → ℕ → Result A
  read_array xs i = or_throw out_of_range (get_elem? xs i)

-- A `char` as a `bool`
abbrev pub char_to_bool : ℕ → Bool
char_to_bool c = not (c == 0)

-- One round of the loop of `register_module`.
unfoldable pub read_property_at : PropertyArrays → ℕ → Result Property
unfolding read_array c_str
read_property_at a i = do
  type ← read_array a.types i
  name_ptr ← read_array a.names i
  name ← c_str name_ptr
  value_ptr ← read_array a.defaults i
  value ← c_str value_ptr
  read_only ← read_array a.read_only i
  ok (record { type = type; name = name; value = value; read_only = char_to_bool read_only })

-- `for (i; i < count; ++i) vec.emplace_back(read(i))`, by the rounds that are left.
unfoldable pub read_from {ℓ} : {A : Type ℓ} → (ℕ → Result A) → ℕ → ℕ → Result (List A)
read_from read zero i = ok []
read_from read (suc rounds) i = do a ← read i; rest ← read_from read rounds (i + 1); ok (a ∷ rest)

-- One round of the loop of `update_properties`.
unfoldable pub read_update_at : List ℤ → List Text → ℕ → Result (ℤ × Text)
unfolding read_array c_str
read_update_at ids values i = do
  id ← read_array ids i
  value_ptr ← read_array values i
  value ← c_str value_ptr
  ok (id, value)

module _ {J : JsonLib} where
  -- init: `g_mgr` is made once.
  unfoldable pub init_manager : ℤ → Net → Option (World J) → World J
  init_manager port net none = init port net
  init_manager port net (some w) = w

  -- register_module, which gives -2 while there is no manager. A count below zero is no round.
  unfoldable pub lib_register_module :
      List (Task J)
      → Text
      → ℕ
      → PropertyArrays
      → Option ℕ
      → Option (World J)
      → Result (ℤ × Option (World J))
  unfolding read_from read_property_at register_new
  lib_register_module meanwhile name count arrays callback none = ok (negsuc 1, none)
  lib_register_module meanwhile name count arrays callback (some w) = do
    props ← read_from (read_property_at arrays) count 0
    name_str ← c_str name
    (id, w') ← register_new meanwhile name_str props callback w
    ok (id, some w')

  -- unregister_module, which uses `g_mgr` without a test.
  unfoldable pub lib_unregister_module : ℤ → Option (World J) → Result (World J)
  lib_unregister_module module_id g_mgr = do w ← or_throw null_deref g_mgr; unregister module_id w

  -- update_properties, which uses `g_mgr` without a test.
  unfoldable pub lib_update_properties :
      ℤ → ℕ → List ℤ → List Text → Option (World J) → Result (World J)
  unfolding read_from read_update_at
  lib_update_properties module_id count ids values g_mgr = do
    us ← read_from (read_update_at ids values) count 0
    w ← or_throw null_deref g_mgr
    update_properties module_id us w
