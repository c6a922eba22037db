-- ===== src/Examples/SimpleJson.antt =====
-- A JSON library to run the model with: values as trees, and as text a prefix code of the tree.
use mathlib.Core.Option
use sacs.Prelude.{
  Bool, Option, Text, [], ap, arith, false, if◌then◌else◌, length, negsuc, none, pos, refl, some,
  subst, suc, text_eq, true, zero, ℕ, ℤ, ◌+◌, ◌==◌, ◌∷◌, ◌≡◌, ◌≤◌,
}
use sacs.Json.{JsonLaws, JsonLib, Pushes, Puts}

-- Arrays and objects are lists of cells. In an object the last cell with a key counts.
pub data Tree : Type 0 where
  null nil_arr nil_obj : Tree
  num : ℤ → Tree
  str : Text → Tree
  cons_arr : Tree → Tree → Tree
  cons_obj : Text → Tree → Tree → Tree

abbrev is_arr : Tree → Bool
is_arr nil_arr = true
is_arr (cons_arr x t) = is_arr t
is_arr _ = false

abbrev is_obj : Tree → Bool
is_obj nil_obj = true
is_obj (cons_obj k x t) = is_obj t
is_obj _ = false

abbrev pub lookup : Tree → Text → Option Tree
lookup (cons_obj j x t) k = if text_eq k j then some x else lookup t k
lookup _ k = none

abbrev elements : Tree → ℕ
elements (cons_arr x t) = elements t + 1
elements _ = 0

abbrev element : Tree → ℕ → Option Tree
element (cons_arr x t) zero = some x
element (cons_arr x t) (suc i) = element t i
element _ i = none

abbrev push : Tree → Tree → Option Tree
push nil_arr v = some (cons_arr v nil_arr)
push (cons_arr x t) v = Option.map (cons_arr x) (push t v)
push null v = some (cons_arr v nil_arr)
push _ v = none

abbrev put_key : Tree → Text → Tree → Option Tree
put_key null k v = some (cons_obj k v nil_obj)
put_key t k v = if is_obj t then some (cons_obj k v t) else none

abbrev key_or_null : Tree → Text → Option Tree → Option (Tree × Tree)
key_or_null t k (some v) = some (t, v)
key_or_null t k none = Option.map (λ (u : Tree). (u, null)) (put_key t k null)

abbrev int_of : Tree → Option ℤ
int_of (num n) = some n
int_of _ = none

abbrev text_of : Tree → Option Text
text_of (str s) = some s
text_of _ = none

abbrev print_text : Text → Text → Text
print_text [] rest = 0 ∷ rest
print_text (c ∷ s) rest = suc c ∷ print_text s rest

abbrev pub print : Tree → Text → Text
print null rest = 0 ∷ rest
print nil_arr rest = 1 ∷ rest
print nil_obj rest = 2 ∷ rest
print (num (pos n)) rest = 3 ∷ n ∷ rest
print (num (negsuc n)) rest = 4 ∷ n ∷ rest
print (str s) rest = 5 ∷ print_text s rest
print (cons_arr x t) rest = 6 ∷ print x (print t rest)
print (cons_obj k x t) rest = 7 ∷ print_text k (print x (print t rest))

abbrev scan_text : Text → Option (Text × Text)
scan_text [] = none
scan_text (zero ∷ rest) = some ([], rest)
scan_text (suc c ∷ rest) = Option.map (λ (p : Text × Text). (c ∷ p.0, p.1)) (scan_text rest)

abbrev pair_up :
    (Tree → Tree → Tree)
    → Option (Tree × Text)
    → (Text → Option (Tree × Text))
    → Option (Tree × Text)
pair_up make none later = none
pair_up make (some (x, rest)) later =
    Option.map (λ (p : Tree × Text). (make x p.0, p.1)) (later rest)

abbrev after_key : Option (Text × Text) → (Text → Option (Tree × Text)) → Option (Tree × Text)
after_key none next = none
after_key (some (k, rest)) next = pair_up (cons_obj k) (next rest) next

-- The fuel bounds the number of cells.
scan : ℕ → Text → Option (Tree × Text)
scan zero s = none
scan (suc f) (zero ∷ r) = some (null, r)
scan (suc f) (suc zero ∷ r) = some (nil_arr, r)
scan (suc f) (suc (suc zero) ∷ r) = some (nil_obj, r)
scan (suc f) (suc (suc (suc zero)) ∷ n ∷ r) = some (num (pos n), r)
scan (suc f) (suc (suc (suc (suc zero))) ∷ n ∷ r) = some (num (negsuc n), r)
scan (suc f) (suc (suc (suc (suc (suc zero)))) ∷ r) =
    Option.map (λ (p : Text × Text). (str p.0, p.1)) (scan_text r)
scan (suc f) (suc (suc (suc (suc (suc (suc zero))))) ∷ r) = pair_up cons_arr (scan f r) (scan f)
scan (suc f) (suc (suc (suc (suc (suc (suc (suc n)))))) ∷ r) = after_key (scan_text r) (scan f)
scan (suc f) _ = none

abbrev cells : Tree → ℕ
cells (cons_arr x t) = suc (cells x + cells t)
cells (cons_obj k x t) = suc (cells x + cells t)
cells _ = 1

scan_text-print_text : (s rest : Text) → scan_text (print_text s rest) ≡ some (s, rest)
scan_text-print_text [] rest = refl
scan_text-print_text (c ∷ s) rest = rw (scan_text-print_text s rest) refl

scan-print : (f : ℕ) (t : Tree) (rest : Text) → cells t ≤ f → scan f (print t rest) ≡ some (t, rest)
unfolding scan
scan-print zero t rest h = absurd (no_room t h)
  where
    no_room : (t : Tree) → ¬ (cells t ≤ 0)
    no_room null h = omega arith
    no_room _ h = omega arith
scan-print (suc f) null rest h = refl
scan-print (suc f) nil_arr rest h = refl
scan-print (suc f) nil_obj rest h = refl
scan-print (suc f) (num (pos n)) rest h = refl
scan-print (suc f) (num (negsuc n)) rest h = refl
scan-print (suc f) (str s) rest h = rw (scan_text-print_text s rest) refl
scan-print (suc f) (cons_arr x t) rest h =
    rw (scan-print f x (print t rest) (omega arith), scan-print f t rest (omega arith)) refl
scan-print (suc f) (cons_obj k x t) rest h =
    rw
      (
        scan_text-print_text k (print x (print t rest)),
        scan-print f x (print t rest) (omega arith),
        scan-print f t rest (omega arith),
      )
      refl

length-print_text : (s rest : Text) → length rest ≤ length (print_text s rest)
length-print_text [] rest = omega arith
length-print_text (c ∷ s) rest = omega (arith, length-print_text s rest)

cells-le-print : (t : Tree) (rest : Text) → cells t + length rest ≤ length (print t rest)
cells-le-print (num (pos n)) rest = omega arith
cells-le-print (num (negsuc n)) rest = omega arith
cells-le-print (str s) rest = omega (arith, length-print_text s rest)
cells-le-print (cons_arr x t) rest =
    omega (arith, cells-le-print x (print t rest), cells-le-print t rest)
cells-le-print (cons_obj k x t) rest = omega (
  arith,
  length-print_text k (print x (print t rest)),
  cells-le-print x (print t rest),
  cells-le-print t rest,
)
cells-le-print _ rest = omega arith

whole : Option (Tree × Text) → Option Tree
whole (some (t, [])) = some t
whole _ = none

pub parse_tree : Text → Option Tree
unfolding scan whole
parse_tree s = whole (scan (length s) s)

parse_tree-print : (t : Tree) → parse_tree (print t []) ≡ some t
unfolding parse_tree
parse_tree-print t =
    rw (scan-print (length (print t [])) t [] (omega (arith, cells-le-print t []))) refl

abbrev pub simple_json : JsonLib
simple_json = record {
  Json = Tree;
  null = null;
  object = nil_obj;
  array = nil_arr;
  of_int = num;
  of_text = str;
  parse = parse_tree;
  overflows = λ s. false;
  dump = λ t. some (print t []);
  get_int = int_of;
  get_text = text_of;
  find = lookup;
  size = elements;
  at = element;
  put = put_key;
  member = λ t k. key_or_null t k (lookup t k);
  push_back = push;
  is_object = is_obj;
  is_array = is_arr;
}

put_key-Puts :
    (j : Tree) (k : Text) (v : Tree) → is_obj j ≡ true → (j' : Tree) × Puts simple_json j k v j'
put_key-Puts nil_obj k v h =
    (cons_obj k v nil_obj, record { made = refl; stays_object = refl; found = λ i. refl })
put_key-Puts (cons_obj i x t) k v h = (
  cons_obj k v (cons_obj i x t),
  record { made = rw h refl; stays_object = h; found = λ i. refl },
)
put_key-Puts null k v h = cc
put_key-Puts _ k v h = cc

element_last :
    (v : Tree) (i : ℕ)
    → element (cons_arr v nil_arr) i ≡ (if i == 0 then some v else element nil_arr i)
element_last v zero = ground arith
element_last v (suc i) = ground arith

element_later :
    (x t v t' : Tree)
    → ((i : ℕ) → element t' i ≡ (if i == elements t then some v else element t i))
    → (i : ℕ)
    → element (cons_arr x t') i ≡ (if i == elements t + 1 then some v else element (cons_arr x t) i)
element_later x t v t' h zero = ground arith
element_later x t v t' h (suc i) = ground (arith, h i)

some_eq : {s s' : Text} → some s ≡ some s' → s ≡ s'
some_eq h = cc

push-Pushes : (a v : Tree) → is_arr a ≡ true → (a' : Tree) × Pushes simple_json a v a'
push-Pushes nil_arr v h = (
  cons_arr v nil_arr,
  record { pushed = refl; stays_array = refl; grown = refl; elements = λ i. element_last v i },
)
push-Pushes (cons_arr x t) v h =
    let (t', p) = push-Pushes t v h in
    (
      cons_arr x t',
      record {
        pushed = rw p.pushed refl;
        stays_array = p.stays_array;
        grown = ap (λ (n : ℕ). n + 1) p.grown;
        elements = λ i. element_later x t v t' p.elements i;
      },
    )
push-Pushes _ v h = cc

pub simple_laws : JsonLaws simple_json
simple_laws = record {
  get_int-of_int = λ n. refl;
  get_text-of_text = λ s. refl;
  object-is_object = refl;
  array-is_array = refl;
  size-array = refl;
  put_lem = put_key-Puts;
  push_back_lem = push-Pushes;
  member-found = λ j k v h e. rw e refl;
  parse-dump = λ j s h. subst (λ s. parse_tree s ≡ some j) (some_eq h) (parse_tree-print j);
}
