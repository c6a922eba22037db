-- ===== src/Page/Environment.antt =====
-- The browser that runs the web page: the values of JavaScript, its JSON, and the inputs of the
-- document, as far as webapp/ uses them. Nothing here is translated from code.
use sacs.Prelude.{
  Bool, List, Option, Text, get_elem?, length, leb, map, none, pos, some, text_eq, true, false, ℕ,
  ℤ, ◌<◌, ◌==ℤ◌, ◌≡◌, [], ◌∷◌,
}
use sacs.Json.{JsonLib}

-- `none` is an exception of the browser: `SyntaxError` of `parse` and `construct`, else `TypeError`.
pub record Browser : Type 1 where
  pub Value : Type 0
  pub undefined : Value
  pub number : ℤ → Value
  pub string : Text → Value
  -- JSON.parse and JSON.stringify
  pub parse : Text → Option Value
  pub stringify : Value → Text
  -- An object literal and an array literal
  pub literal : List (Text × Value) → Value
  pub array_of : List Value → Value
  -- `v.key`
  pub get : Value → Text → Option Value
  -- What `v.forEach` runs over
  pub each_of : Value → Option (List Value)
  -- Whether two values are one key of a `Map`
  pub same_key : Value → Value → Bool
  -- `v == "..."`
  pub loosely : Value → Text → Bool
  -- The index of an array that a value names, if it names one
  pub index : Value → Option ℕ
  -- `v.length > 0`
  pub has_length : Value → Option Bool
  -- A value as part of a concatenation
  pub shown : Value → Text
  -- What an `input`, and what a `textarea`, has as its value when a value is written to it
  pub input_value : Value → Text
  pub area_value : Value → Text
  -- The object that the text of a script property makes, with its `setValue` and its `getValue`
  pub Script : Type 0
  pub construct : Value → Option Script
  pub set_script : Script → Value → Option Script
  pub get_script : Script → Option Value

module _ (J : JsonLib) (B : Browser) where
  -- What a browser and the JSON library of the processes make of each other's texts. An `int` has 32
  -- bits, which a number of JavaScript holds exactly, and a text that can be dumped is UTF-8.
  pub record BrowserLaws : Type 0 where
    pub of_json : J.Json → B.Value
    pub parse-dump : (j : J.Json) (s : Text) → J.dump j ≡ some s → B.parse s ≡ some (of_json j)
    pub of_json-int : (n : ℤ) → of_json (J.of_int n) ≡ B.number n
    pub of_json-text : (s : Text) → of_json (J.of_text s) ≡ B.string s
    pub get-found :
        (j v : J.Json) (k : Text)
        → J.is_object j ≡ true
        → J.find j k ≡ some v
        → B.get (of_json j) k ≡ some (of_json v)
    pub each_of-array :
        (a : J.Json) (vs : List J.Json)
        → J.is_array a ≡ true
        → J.size a ≡ length vs
        → ((i : ℕ) → i < length vs → J.at a i ≡ get_elem? vs i)
        → B.each_of (of_json a) ≡ some (map of_json vs)
    pub same_key-number : (m n : ℤ) → B.same_key (B.number m) (B.number n) ≡ (m ==ℤ n)
    pub loosely-string : (s t : Text) → B.loosely (B.string s) t ≡ text_eq s t
    pub index-pos : (i : ℕ) → B.index (B.number (pos i)) ≡ some i
    pub has_length-string : (s : Text) → B.has_length (B.string s) ≡ some (leb 1 (length s))
    -- What the processes read from the text of a value; `none` is `undefined`, which has no text.
    pub to_json : B.Value → Option J.Json
    pub parse-stringify :
        (v : B.Value) (j : J.Json) → to_json v ≡ some j → J.parse (B.stringify v) ≡ some j
    pub to_json-number : (n : ℤ) → to_json (B.number n) ≡ some (J.of_int n)
    pub to_json-string : (s : Text) → to_json (B.string s) ≡ some (J.of_text s)
    pub object_of : List (Text × B.Value) → J.Json
    pub to_json-literal :
        (fs : List (Text × B.Value)) → to_json (B.literal fs) ≡ some (object_of fs)
    pub object_of-is_object : (fs : List (Text × B.Value)) → J.is_object (object_of fs) ≡ true
    pub object_of-empty : (k : Text) → J.find (object_of []) k ≡ none
    pub object_of-head :
        (k : Text) (v : B.Value) (fs : List (Text × B.Value)) (j : J.Json)
        → to_json v ≡ some j
        → J.find (object_of fs) k ≡ none
        → J.find (object_of ((k, v) ∷ fs)) k ≡ some j
    pub object_of-skip :
        (k i : Text) (v : B.Value) (fs : List (Text × B.Value))
        → text_eq i k ≡ false
        → J.find (object_of ((k, v) ∷ fs)) i ≡ J.find (object_of fs) i
    pub to_json-array :
        (vs : List B.Value) (js : List J.Json)
        → map to_json vs ≡ map some js
        → (a : J.Json) × (to_json (B.array_of vs) ≡ some a)
          × (J.size a ≡ length js)
          × ((i : ℕ) → J.at a i ≡ get_elem? js i)
