-- ===== src/Clients/Script.antt =====
-- examples/Script.cpp: each call changes the size of a picture.
use Prim.Native.Nat.{◌%◌}
use sacs.Clients.Decimal.{atoi, atoi-digits, decimal, digits-append, read_digits, until_nul-digits}
use sacs.Prelude.{
  Bool, List, Option, Result, Text, [], arith, codes, ok, pos, refl, some, suc, true, ℕ, ℤ, ◌++◌,
  ◌+◌, ◌>>=◌, ◌∷◌, ◌≡◌, ◌≤◌,
}
use sacs.Clients.{Callback, answer, property}
use sacs.Json.{JsonLib}
use sacs.State.{Task, World}
use sacs.Wrapper.{
  no_lib_update_properties, script, text_ro, wrapper_register_module, wrapper_update_properties,
}
use sacs.ModuleManager.{call_back}
use sacs.Wrapper.Marshalling.{until_nul, wrapper_update_properties-no_lib}

-- Each line, with the line end before it.
abbrev lines : List Text → Text
lines [] = []
lines (l ∷ ls) = b'\n' ∷ l ++ lines ls

-- The program for the page: the body of a function that gives the object of the property.
abbrev script_program : Text
script_program =
    lines (
      codes "  class ScriptTest {"
      ∷ codes "    constructor(propertyObj) {"
      ∷ codes "      this.img = document.createElement('img');"
      ∷ (codes "      this.img.src='https://icons-for-free.com/iconfiles/png/512/mario"
          ++ codes "+mario+bros+mario+world+mushroom+toad+videogame+icon-13201964005293380"
          ++ codes "74.png';")
      ∷ codes "      this.img.width = 400;"
      ∷ codes "      this.img.height = 400;"
      ∷ codes "      this.img.addEventListener(\"click\", function(){"
      ∷ codes "        propertyObj.onActivated();"
      ∷ codes "      });"
      ∷ codes "      propertyObj.addObj(this.img);"
      ∷ codes "    }"
      ∷ codes ""
      ∷ codes "    getValue() {"
      ∷ codes "      return \"1\";"
      ∷ codes "    }"
      ∷ codes ""
      ∷ codes "    setValue(value) {"
      ∷ codes "      let vals = value.split(' ');"
      ∷ codes "      this.img.width = parseInt(vals[0]);"
      ∷ codes "      this.img.height = parseInt(vals[1]);"
      ∷ codes "    }"
      ∷ codes "  }"
      ∷ codes ""
      ∷ codes "  return new ScriptTest(propertyObj);"
      ∷ [])
    ++ b'\n' ∷ []

-- `rand() % 201 + 200`, where `rand` gives `r`
abbrev pub length_from : ℕ → ℕ
length_from r = r % 201 + 200

-- The text of the size, from the two numbers that `rand` gives.
abbrev pub size_text : ℕ → ℕ → Text
size_text r s = decimal (length_from r) ++ b' ' ∷ decimal (length_from s)

module _ {J : JsonLib} (is_valid : Bool) where
  unfoldable pub script_callback : ℕ → ℕ → Callback (Option (World J))
  unfolding wrapper_update_properties
  script_callback r s module_id count property_no property_val g_mgr =
      wrapper_update_properties is_valid module_id
        ((pos 0, size_text r s) ∷ (pos 1, size_text r s) ∷ []) g_mgr

  -- main, up to the endless loop
  unfoldable pub script_main : List (Task J) → ℕ → Option (World J) → Result (ℤ × Option (World J))
  unfolding wrapper_register_module
  script_main meanwhile callback g_mgr =
      wrapper_register_module meanwhile is_valid (codes "Script")
        (property text_ro "Current Size" (codes "400 400")
          ∷ record { type = script; name = []; default_value = script_program }
          ∷ [])
        (some callback) g_mgr

until_nul-size_text : (r s : ℕ) → until_nul (size_text r s) ≡ size_text r s
unfolding until_nul
until_nul-size_text r s =
    let a = length_from r in
    let b = length_from s in
    let joined = digits-append (suc a) a [] (b' ' ∷ decimal b) in
    rw (joined, until_nul-digits (suc a) a (b' ' ∷ decimal b), until_nul-digits (suc b) b []) refl

-- A size as the page reads it: a number, a space and a number.
pub record ReadsAs (text : Text) (width height : ℕ) : Type 0 where
  pub behind : Text
  pub first : atoi text ≡ ok (pos width)
  pub second : atoi behind ≡ ok (pos height)
  pub split : text ≡ decimal width ++ b' ' ∷ behind

size_text-ReadsAs : (r s : ℕ) → ReadsAs (size_text r s) (length_from r) (length_from s)
unfolding read_digits
size_text-ReadsAs r s =
    let a = length_from r in
    let b = length_from s in
    record {
      behind = decimal b;
      first =
          rw (digits-append (suc a) a [] (b' ' ∷ decimal b))
            (atoi-digits a (b' ' ∷ decimal b) (omega arith) refl);
      second = atoi-digits b [] (omega arith) refl;
      split = refl;
    }

module _ {J : JsonLib} where
  -- The callback of Script sets both properties to one text, which the page reads as a number, a
  -- space and a number, each of the two from 200 to 400, whatever `rand` gives.
  script_callback-sizes :
      (f : ℕ) (module_id : ℤ) (us : List (ℤ × Text)) (r s : ℕ) (w : World J)
      → (text : Text) × (width height : ℕ) × (answer
            (script_callback true r s)
            (call_back f module_id us)
            (some w)
          ≡ (do
            w' ← no_lib_update_properties module_id ((pos 0, text) ∷ (pos 1, text) ∷ []) w
            ok (some w')))
        × ReadsAs text width height
        × (200 ≤ width)
        × (width ≤ 400)
        × (200 ≤ height)
        × (height ≤ 400)
  unfolding script_callback call_back
  script_callback-sizes f module_id us r s w =
      let t = size_text r s in
      (
        t,
        length_from r,
        length_from s,
        rw
            (
              wrapper_update_properties-no_lib module_id ((pos 0, t) ∷ (pos 1, t) ∷ []) w,
              until_nul-size_text r s,
            )
            refl,
        size_text-ReadsAs r s,
        omega arith,
        omega arith,
        omega arith,
        omega arith,
      )
