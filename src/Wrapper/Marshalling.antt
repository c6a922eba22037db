-- ===== src/Wrapper/Marshalling.antt =====
-- The way through the arrays of C strings against the direct call.
use sacs.Prelude.{
  Bool, Bool-cases, List, Option, Result, Text, [], arith, get_elem?, if◌then◌else◌, inl, inr,
  length, map, negsuc, none, ok, refl, some, suc, true, zero, ℕ, ℤ, ◌++◌, ◌+◌, ◌==◌, ◌>>=◌, ◌∷◌,
  ◌≡◌,
}
use sacs.SacsLib.{
  c_str, init_manager, lib_register_module, lib_update_properties, read_array, read_from,
  read_property_at, read_update_at,
}
use sacs.Wrapper.{
  ModuleProperty, copy_c_str, is_property_type_for_read_only, loads, no_lib_new,
  no_lib_register_module, no_lib_update_properties, property_arrays, str_to_chr_a, to_property,
  type_no, wrapper_new, wrapper_register_module, wrapper_update_properties,
}
use sacs.Json.{JsonLib}
use sacs.State.{Net, Task, World}

-- A text up to its first NUL.
unfoldable pub until_nul : Text → Text
until_nul [] = []
until_nul (c ∷ rest) = let more = until_nul rest in if c == 0 then [] else c ∷ more

pub c_str-append : (s rest : Text) → c_str (s ++ 0 ∷ rest) ≡ ok (until_nul s)
unfolding c_str until_nul
c_str-append [] rest = refl
c_str-append (c ∷ s) rest = ground (arith, c_str-append s rest)

-- What the copy holds is the text up to its first NUL.
c_str-copy_c_str : (s : Text) → c_str (copy_c_str s) ≡ ok (until_nul s)
unfolding c_str copy_c_str until_nul
c_str-copy_c_str [] = refl
c_str-copy_c_str (c ∷ s) = ground (arith, c_str-copy_c_str s)

c_str-str_to_chr_a : (s : Text) → c_str (str_to_chr_a s) ≡ ok (until_nul s)
unfolding str_to_chr_a
c_str-str_to_chr_a [] = c_str-copy_c_str []
c_str-str_to_chr_a (c ∷ s) = c_str-copy_c_str (c ∷ s)

pub until_nul-until_nul : (s : Text) → until_nul (until_nul s) ≡ until_nul s
unfolding until_nul
until_nul-until_nul [] = refl
until_nul-until_nul (c ∷ s) = ground (arith, until_nul-until_nul s)

map-map :
    {A B C : Type 0} (g : B → C) (f : A → B) (xs : List A)
    → map g (map f xs) ≡ map (λ x. g (f x)) xs
map-map g f [] = refl
map-map g f (x ∷ xs) = rw (map-map g f xs) refl

get_elem?-map :
    {A B : Type 0} (f : A → B) (xs : List A) (i : ℕ) {x : A}
    → get_elem? xs i ≡ some x
    → get_elem? (map f xs) i ≡ some (f x)
get_elem?-map f [] i h = cc
get_elem?-map f (x ∷ xs) zero h = ground arith
get_elem?-map f (x ∷ xs) (suc i) h = get_elem?-map f xs i h

-- A loop that reads each entry of a list in turn yields them all.
read_from-map :
    {A B : Type 0} (read : ℕ → Result B) (f : A → B) (xs : List A) (i : ℕ)
    → ((j : ℕ) (x : A) → get_elem? xs j ≡ some x → read (i + j) ≡ ok (f x))
    → read_from read (length xs) i ≡ ok (map f xs)
unfolding read_from
read_from-map {A = A} read f [] i h = refl
read_from-map {A = A} read f (x ∷ xs) i h =
    let first : i + 0 ≡ i = omega arith in
    let later = λ (j : ℕ) (y : A) (e : get_elem? xs j ≡ some y).
      let moved : i + 1 + j ≡ i + suc j = omega arith in
      let here : read (i + 1 + j) ≡ ok (f y) = rw moved (h (suc j) y e) in here in
    rw (rw first at (h 0 x refl), read_from-map read f xs (i + 1) later) refl

unfoldable pub cut : ModuleProperty → ModuleProperty
cut p = record p { name = until_nul p.name; default_value = until_nul p.default_value }

module _ (ps : List ModuleProperty) where
  read_property_at-cut :
      (i : ℕ) (p : ModuleProperty)
      → get_elem? ps i ≡ some p
      → read_property_at (property_arrays ps) i ≡ ok (to_property (cut p))
  unfolding read_property_at property_arrays to_property cut read_array
  read_property_at-cut i p h =
      rw
        (
          get_elem?-map (λ (q : ModuleProperty). type_no q.type) ps i h,
          get_elem?-map (λ (q : ModuleProperty). str_to_chr_a q.name) ps i h,
          c_str-str_to_chr_a p.name,
          get_elem?-map (λ (q : ModuleProperty). str_to_chr_a q.default_value) ps i h,
          c_str-str_to_chr_a p.default_value,
          get_elem?-map (λ (q : ModuleProperty). is_property_type_for_read_only q.type) ps i h,
        )
        refl

  -- The arrays that the wrapper fills are read back as the properties, their texts cut at a NUL.
  read_from-property_arrays :
      read_from (read_property_at (property_arrays ps)) (length ps) 0
      ≡ ok (map (λ (p : ModuleProperty). to_property (cut p)) ps)
  read_from-property_arrays =
      read_from-map (read_property_at (property_arrays ps))
        (λ (p : ModuleProperty). to_property (cut p)) ps 0
        (λ j p h. let start : 0 + j ≡ j = omega arith in rw start (read_property_at-cut j p h))

module _ {J : JsonLib} where
  -- To register through the shared library is to register directly, with the name of the module and
  -- the names and values of its properties cut at their first NUL.
  pub wrapper_register_module-no_lib :
      (meanwhile : List (Task J)) (name : Text) (ps : List ModuleProperty) (callback : Option ℕ)
      (w : World J)
      → wrapper_register_module meanwhile true name ps callback (some w) ≡ (do
        (id, w') ← no_lib_register_module meanwhile (until_nul name) (map cut ps) callback w
        ok (id, some w'))
  unfolding wrapper_register_module lib_register_module no_lib_register_module
  wrapper_register_module-no_lib meanwhile name ps callback w =
      rw (read_from-property_arrays ps, c_str-append name []) (rw (map-map to_property cut ps) refl)

abbrev pub cut_update : ℤ × Text → ℤ × Text
cut_update (id, value) = (id, until_nul value)

-- The arrays of a call, where each value stands in a buffer that is read back up to its first NUL.
module _ (buffer : Text → Text) (read_back : (s : Text) → c_str (buffer s) ≡ ok (until_nul s)) where
  read_update_at-cut :
      (us : List (ℤ × Text)) (i : ℕ) (u : ℤ × Text)
      → get_elem? us i ≡ some u
      → read_update_at (map (λ (v : ℤ × Text). v.0) us) (map (λ (v : ℤ × Text). buffer v.1) us) i
        ≡ ok (cut_update u)
  unfolding read_update_at read_array
  read_update_at-cut us i u h =
      rw
        (
          get_elem?-map (λ (v : ℤ × Text). v.0) us i h,
          get_elem?-map (λ (v : ℤ × Text). buffer v.1) us i h,
          read_back u.1,
        )
        refl

  pub read_from-updates :
      (us : List (ℤ × Text))
      → read_from
          (read_update_at (map (λ (v : ℤ × Text). v.0) us) (map (λ (v : ℤ × Text). buffer v.1) us))
          (length us)
          0
        ≡ ok (map cut_update us)
  read_from-updates us =
      read_from-map _ cut_update us 0
        (λ j u h. let start : 0 + j ≡ j = omega arith in rw start (read_update_at-cut us j u h))

module _ {J : JsonLib} where
  -- To update properties through the shared library is to update them directly, with the values cut
  -- at their first NUL.
  pub wrapper_update_properties-no_lib :
      (module_id : ℤ) (us : List (ℤ × Text)) (w : World J)
      → wrapper_update_properties true module_id us (some w)
        ≡ (do w' ← no_lib_update_properties module_id (map cut_update us) w; ok (some w'))
  unfolding wrapper_update_properties lib_update_properties no_lib_update_properties
  wrapper_update_properties-no_lib module_id us w =
      rw (read_from-updates copy_c_str c_str-copy_c_str us) refl

  -- Where the shared library and its four functions are found, the first wrapper of a process
  -- registers a module as the wrapper that has the manager linked in does, with the name and the
  -- properties' names and values cut at their first NUL; where they are not, it gives -2 and does
  -- nothing.
  wrapper_new-registers :
      (lib_found : Bool) (has : Text → Bool) (net : Net) (meanwhile : List (Task J)) (name : Text)
      (ps : List ModuleProperty) (callback : Option ℕ)
      → (let (is_valid, g_mgr) = wrapper_new {J = J} lib_found has net none in
          wrapper_register_module meanwhile is_valid name ps callback g_mgr)
        ≡ (if loads lib_found has
            then (do
              (id, w) ←
                  no_lib_register_module meanwhile
                    (until_nul name)
                    (map cut ps)
                    callback
                    (no_lib_new net)
              ok (id, some w))
            else ok (negsuc 1, none))
  unfolding wrapper_new init_manager wrapper_register_module
  wrapper_new-registers lib_found has net meanwhile name ps callback =
      elim (Bool-cases (loads lib_found has)) [
        | inl e ↦ rw e (wrapper_register_module-no_lib meanwhile name ps callback (no_lib_new net))
        | inr e ↦ rw e refl
      ]
