-- ===== src/Json.antt =====
-- nlohmann::json, which the repository takes as a submodule: the operations that JsonMsg.cpp calls,
-- and what it relies on of their documented behaviour. Nothing here is translated from code.
use sacs.Prelude.{Bool, Option, Text, if◌then◌else◌, some, text_eq, true, ℕ, ℤ, ◌+◌, ◌==◌, ◌≡◌}

-- `none` is an exception of the library: of `parse` as `overflows` tells, else `type_error` or, of `at`,
-- `out_of_range`. Of `find`, `none` is `end()`.
pub record JsonLib : Type 1 where
  pub Json : Type 0
  pub null : Json
  pub object : Json
  pub array : Json
  pub of_int : ℤ → Json
  pub of_text : Text → Json
  pub parse : Text → Option Json
  -- Whether the exception of `parse` is `out_of_range`, for a number that is too large, and not
  -- `parse_error`
  pub overflows : Text → Bool
  pub dump : Json → Option Text
  pub get_int : Json → Option ℤ
  pub get_text : Json → Option Text
  pub find : Json → Text → Option Json
  pub size : Json → ℕ
  pub at : Json → ℕ → Option Json
  -- `j[key] = v`
  pub put : Json → Text → Json → Option Json
  -- `auto& v = j[key]`, which adds a null where the key is missing: the new `j`, and `v`.
  pub member : Json → Text → Option (Json × Json)
  pub push_back : Json → Json → Option Json
  pub is_object : Json → Bool
  pub is_array : Json → Bool

module _ (J : JsonLib) where
  open J use {
    Json, object, array, of_int, of_text, parse, dump, get_int, get_text, find, size, at, put,
    member, push_back, is_object, is_array,
  }

  -- `k` is bound to `v` in `j'`, and the other keys are as in `j`.
  pub record Puts (j : Json) (k : Text) (v j' : Json) : Type 0 where
    pub made : put j k v ≡ some j'
    pub stays_object : is_object j' ≡ true
    pub found : (i : Text) → find j' i ≡ (if text_eq i k then some v else find j i)

  pub record Pushes (a v a' : Json) : Type 0 where
    pub pushed : push_back a v ≡ some a'
    pub stays_array : is_array a' ≡ true
    pub grown : size a' ≡ size a + 1
    pub elements : (i : ℕ) → at a' i ≡ (if i == size a then some v else at a i)

  pub record JsonLaws : Type 0 where
    pub get_int-of_int : (n : ℤ) → get_int (of_int n) ≡ some n
    pub get_text-of_text : (s : Text) → get_text (of_text s) ≡ some s
    pub object-is_object : is_object object ≡ true
    pub array-is_array : is_array array ≡ true
    pub size-array : size array ≡ 0
    pub put_lem :
        (j : Json) (k : Text) (v : Json) → is_object j ≡ true → (j' : Json) × Puts j k v j'
    pub push_back_lem : (a v : Json) → is_array a ≡ true → (a' : Json) × Pushes a v a'
    pub member-found :
        (j : Json) (k : Text) (v : Json)
        → is_object j ≡ true
        → find j k ≡ some v
        → member j k ≡ some (j, v)
    pub parse-dump : (j : Json) (s : Text) → dump j ≡ some s → parse s ≡ some j
