-- ===== src/Jni/Java/Calls.antt =====
-- JniGlue::CallJavaPropertiesUpdate: the array of updates that the method in Java is called with.
use sacs.State.{called}
use sacs.Wrapper.Marshalling.{c_str-append, cut_update, until_nul, until_nul-until_nul}
use sacs.Prelude.{
  List, Option, Result, Text, [], ap, append_assoc, arith, length, map, none, ok, refl, some, suc,
  sym, zero, ℕ, ℤ, ◌++◌, ◌+◌, ◌>>=◌, ◌∙◌, ◌∷◌, ◌≡◌,
}
use sacs.SacsLib.{c_str}
use sacs.Jni.{QueuedCallback, read_callback}
use sacs.Jni.Java.Properties.{read_callback-call_back}
use sacs.ModuleManager.{call_back}

module _ {A : Type 0} where
  abbrev pub nulls : ℕ → List (Option A)
  nulls zero = []
  nulls (suc n) = none ∷ nulls n

  abbrev pub put : ℕ → A → List (Option A) → List (Option A)
  put i a [] = []
  put zero a (x ∷ xs) = some a ∷ xs
  put (suc i) a (x ∷ xs) = x ∷ put i a xs

  put-append :
      (pre rest : List (Option A)) (a : A)
      → put (length pre) a (pre ++ none ∷ rest) ≡ pre ++ some a ∷ rest
  put-append [] rest a = refl
  put-append (x ∷ pre) rest a = ap (λ (l : List (Option A)). x ∷ l) (put-append pre rest a)

  length-snoc : (xs : List A) (x : A) → length (xs ++ x ∷ []) ≡ length xs + 1
  length-snoc [] x = refl
  length-snoc (y ∷ xs) x = omega (arith, length-snoc xs x)

-- The arrays of objects that a thread of the Java machine makes. `new_object` makes an update from
-- its id and the bytes of its value, up to a NUL.
pub record JavaArrays : Type 1 where
  pub Array : Type 0
  pub Object : Type 0
  pub new_object_array : ℕ → Array
  pub new_object : ℤ → Text → Object
  pub set_element : Array → ℕ → Object → Array
  pub elements : Array → List (Option Object)

module _ (A : JavaArrays) where
  open A use {Array, Object, new_object_array, new_object, set_element, elements}

  pub record ArrayLaws : Type 0 where
    pub elements-new : (n : ℕ) → elements (new_object_array n) ≡ nulls n
    pub elements-set :
        (a : Array) (i : ℕ) (o : Object) → elements (set_element a i o) ≡ put i o (elements a)

  -- The inner loop, from index `i` on.
  unfoldable pub fill_array : ℕ → List (ℤ × Text) → Array → Result Array
  unfolding c_str
  fill_array i [] a = ok a
  fill_array i ((id, value) ∷ us) a = do
    s ← c_str (value ++ 0 ∷ [])
    fill_array (i + 1) us (set_element a i (new_object id s))

  -- The array of one callback
  unfoldable pub update_array : List (ℤ × Text) → Result Array
  unfolding fill_array
  update_array us = fill_array 0 us (new_object_array (length us))

  abbrev pub made : ℤ × Text → Option Object
  made (id, value) = some (new_object id (until_nul value))

  fill_array-elements :
      (L : ArrayLaws) (i : ℕ) (us : List (ℤ × Text)) (a : Array) (pre : List (Option Object))
      → i ≡ length pre
      → elements a ≡ pre ++ nulls (length us)
      → (a' : Array) × (fill_array i us a ≡ ok a') × (elements a' ≡ pre ++ map made us)
  unfolding fill_array
  fill_array-elements L i [] a pre at has = (a, refl, has)
  fill_array-elements L i ((id, value) ∷ us) a pre at has =
      let s = until_nul value in
      let o = new_object id s in
      let changed : elements (set_element a i o) ≡ (pre ++ some o ∷ []) ++ nulls (length us) =
        L.elements-set a i o
        ∙ rw (has, at) (put-append pre (nulls (length us)) o)
        ∙ sym (append_assoc pre (some o ∷ []) (nulls (length us))) in
      let (a', done, all) =
        fill_array-elements L (i + 1) us (set_element a i o) (pre ++ some o ∷ [])
          (rw (length-snoc pre (some o), at) refl) changed in
      (a', rw (c_str-append value []) done, all ∙ append_assoc pre (some o ∷ []) (map made us))

  update_array-elements :
      (L : ArrayLaws) (us : List (ℤ × Text))
      → (a : Array) × (update_array us ≡ ok a) × (elements a ≡ map made us)
  unfolding update_array
  update_array-elements L us =
      fill_array-elements L 0 us (new_object_array (length us)) [] refl (L.elements-new (length us))

  made-cut_update : (us : List (ℤ × Text)) → map made (map cut_update us) ≡ map made us
  made-cut_update [] = refl
  made-cut_update ((id, value) ∷ us) = rw (until_nul-until_nul value, made-cut_update us) refl

  -- Where the arrays of the Java machine hold what is set in them, the arrays that the manager
  -- passes to a callback are read by JniGlue as the module's id and updates from which it fills an
  -- array for Java that holds, in order and without a null, an object for each update, with its
  -- value up to the first NUL.
  pub java_sees_updates :
      (L : ArrayLaws) (f : ℕ) (module_id : ℤ) (us : List (ℤ × Text))
      → (count : ℕ) × (property_no : List ℤ) × (property_val : List Text) × (c : QueuedCallback)
        × (a : Array) × (call_back f module_id us
            ≡ called f module_id count property_no property_val)
        × (read_callback module_id count property_no property_val ≡ ok c)
        × (c.module_id ≡ module_id)
        × (update_array c.update_vec ≡ ok a)
        × (elements a ≡ map made us)
  java_sees_updates L f module_id us =
      let (count, property_no, property_val, sent, read) = read_callback-call_back f module_id us in
      let (a, done, all) = update_array-elements L (map cut_update us) in
      (
        count,
        property_no,
        property_val,
        record { module_id = module_id; update_vec = map cut_update us },
        a,
        sent,
        read,
        refl,
        done,
        all ∙ made-cut_update us,
      )
