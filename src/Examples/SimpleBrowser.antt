-- ===== src/Examples/SimpleBrowser.antt =====
-- A browser to run the page with: its values are `undefined` and trees of the example's JSON library.
use mathlib.Core.Option
use sacs.Prelude.{
  arith, Bool, List, Option, Text, [], false, get_elem?, if◌then◌else◌, leb, length, map, none, pos,
  refl, some, some_injective, suc, text_eq, true, zero, ℕ, ◌==ℤ◌, ◌<◌, ◌∷◌, ◌≡◌, ◌+◌,
}
use sacs.Examples.SimpleJson.{
  Tree, cons_arr, cons_obj, lookup, nil_arr, nil_obj, null, num, parse_tree, print, simple_json,
  simple_laws, str,
}
use sacs.Page.Environment.{Browser, BrowserLaws}

pub data JsValue : Type 0 where
  undefined : JsValue
  of_tree : Tree → JsValue

abbrev object_tree : List (Text × JsValue) → Tree
object_tree [] = nil_obj
object_tree ((k, undefined) ∷ fs) = object_tree fs
object_tree ((k, of_tree t) ∷ fs) = cons_obj k t (object_tree fs)

abbrev tree_of : JsValue → Tree
tree_of undefined = null
tree_of (of_tree t) = t

abbrev array_tree : List Tree → Tree
array_tree [] = nil_arr
array_tree (t ∷ ts) = cons_arr t (array_tree ts)

abbrev elements_of : Tree → List Tree
elements_of (cons_arr x t) = x ∷ elements_of t
elements_of _ = []

-- A member that is missing is `undefined`, but of null there are no members.
abbrev missing : Tree → Option JsValue
missing null = none
missing _ = some undefined

abbrev get_member : JsValue → Text → Option JsValue
get_member undefined k = none
get_member (of_tree t) k = elim (lookup t k) [ none ↦ missing t | some x ↦ some (of_tree x) ]

abbrev each_value : JsValue → Option (List JsValue)
each_value undefined = none
each_value (of_tree t) = if simple_json.is_array t then some (map of_tree (elements_of t)) else none

abbrev same_value : JsValue → JsValue → Bool
same_value (of_tree (num m)) (of_tree (num n)) = m ==ℤ n
same_value (of_tree (str s)) (of_tree (str t)) = text_eq s t
same_value undefined undefined = true
same_value _ _ = false

abbrev equals_text : JsValue → Text → Bool
equals_text (of_tree (str s)) t = text_eq s t
equals_text _ t = false

abbrev index_of : JsValue → Option ℕ
index_of (of_tree (num (pos i))) = some i
index_of _ = none

abbrev is_long : JsValue → Option Bool
is_long undefined = none
is_long (of_tree (str s)) = some (leb 1 (length s))
is_long (of_tree null) = none
is_long _ = some false

abbrev shown_text : JsValue → Text
shown_text (of_tree (str s)) = s
shown_text _ = []

abbrev make_script : JsValue → Option Text
make_script (of_tree (str s)) = some s
make_script _ = none

abbrev pub simple_browser : Browser
simple_browser = record {
  Value = JsValue;
  undefined = undefined;
  number = λ n. of_tree (num n);
  string = λ s. of_tree (str s);
  parse = λ s. Option.map of_tree (parse_tree s);
  stringify = λ v. print (tree_of v) [];
  literal = λ fs. of_tree (object_tree fs);
  array_of = λ vs. of_tree (array_tree (map tree_of vs));
  get = get_member;
  each_of = each_value;
  same_key = same_value;
  loosely = equals_text;
  index = index_of;
  has_length = is_long;
  shown = shown_text;
  input_value = shown_text;
  area_value = shown_text;
  Script = Text;
  construct = make_script;
  set_script = λ s v. some s;
  get_script = λ s. some (of_tree (str s));
}

text_eq_refl : (s : Text) → text_eq s s ≡ true
unfolding text_eq
text_eq_refl [] = refl
text_eq_refl (c ∷ s) = ground (arith, text_eq_refl s)

to_tree : JsValue → Option Tree
to_tree undefined = none
to_tree (of_tree t) = some t

parse-print :
    (j : Tree) (s : Text)
    → some (print j []) ≡ some s
    → Option.map of_tree (parse_tree s) ≡ some (of_tree j)
parse-print j s h = rw (simple_laws.parse-dump j s h) refl

get_member-found :
    (j v : Tree) (k : Text) → lookup j k ≡ some v → get_member (of_tree j) k ≡ some (of_tree v)
get_member-found j v k h = rw (get_member, h) refl

suc_ne_0 : (n : ℕ) → ¬ (n + 1 ≡ 0)
suc_ne_0 n h = omega arith

elements_of-each :
    (a : Tree) (vs : List Tree)
    → simple_json.is_array a ≡ true
    → simple_json.size a ≡ length vs
    → ((i : ℕ) → i < length vs → simple_json.at a i ≡ get_elem? vs i)
    → elements_of a ≡ vs
elements_of-each nil_arr [] h n e = refl
elements_of-each nil_arr (v ∷ vs) h n e = absurd (zero_ne_suc (length vs) n)
  where
    zero_ne_suc : (n : ℕ) → ¬ (0 ≡ suc n)
    zero_ne_suc n h = omega arith
elements_of-each (cons_arr x t) [] h n e = absurd (suc_ne_0 (simple_json.size t) n)
elements_of-each (cons_arr x t) (v ∷ vs) h n e =
    let same : x ≡ v = some_injective (e 0 (omega arith)) in
    let rest : elements_of t ≡ vs =
      elements_of-each t vs h (omega (arith, n)) (λ i lt. e (suc i) (omega arith)) in
    rw (same, rest) refl
elements_of-each _ vs h n e = cc

each_value-array :
    (a : Tree) (vs : List Tree)
    → simple_json.is_array a ≡ true
    → simple_json.size a ≡ length vs
    → ((i : ℕ) → i < length vs → simple_json.at a i ≡ get_elem? vs i)
    → each_value (of_tree a) ≡ some (map of_tree vs)
each_value-array a vs h n e = rw (h, elements_of-each a vs h n e) refl

object_tree-is_object : (fs : List (Text × JsValue)) → simple_json.is_object (object_tree fs) ≡ true
object_tree-is_object [] = refl
object_tree-is_object ((k, undefined) ∷ fs) = object_tree-is_object fs
object_tree-is_object ((k, of_tree t) ∷ fs) = object_tree-is_object fs

object_tree-head :
    (k : Text) (v : JsValue) (fs : List (Text × JsValue)) (j : Tree)
    → to_tree v ≡ some j
    → lookup (object_tree ((k, v) ∷ fs)) k ≡ some j
unfolding to_tree
object_tree-head k undefined fs j h = cc
object_tree-head k (of_tree t) fs j h = rw (text_eq_refl k) h

object_tree-skip :
    (k i : Text) (v : JsValue) (fs : List (Text × JsValue))
    → text_eq i k ≡ false
    → lookup (object_tree ((k, v) ∷ fs)) i ≡ lookup (object_tree fs) i
object_tree-skip k i undefined fs h = refl
object_tree-skip k i (of_tree t) fs h = rw h refl

tree_of-each :
    (vs : List JsValue) (js : List Tree) → map to_tree vs ≡ map some js → map tree_of vs ≡ js
unfolding to_tree
tree_of-each [] [] h = refl
tree_of-each [] (j ∷ js) h = cc
tree_of-each (v ∷ vs) [] h = cc
tree_of-each (undefined ∷ vs) (j ∷ js) h = cc
tree_of-each (of_tree t ∷ vs) (j ∷ js) h =
    let first : t ≡ j = cc in
    let later : map to_tree vs ≡ map some js = cc in rw (first, tree_of-each vs js later) refl

array_tree-size : (js : List Tree) → simple_json.size (array_tree js) ≡ length js
array_tree-size [] = refl
array_tree-size (j ∷ js) = omega (arith, array_tree-size js)

array_tree-at : (js : List Tree) (i : ℕ) → simple_json.at (array_tree js) i ≡ get_elem? js i
array_tree-at [] i = refl
array_tree-at (j ∷ js) zero = refl
array_tree-at (j ∷ js) (suc i) = array_tree-at js i

array_value :
    (vs : List JsValue) (js : List Tree)
    → map to_tree vs ≡ map some js
    → (a : Tree) × (to_tree (of_tree (array_tree (map tree_of vs))) ≡ some a)
      × (simple_json.size a ≡ length js)
      × ((i : ℕ) → simple_json.at a i ≡ get_elem? js i)
unfolding to_tree
array_value vs js h =
    (array_tree js, rw (tree_of-each vs js h) refl, array_tree-size js, array_tree-at js)

print-parse :
    (v : JsValue) (j : Tree) → to_tree v ≡ some j → parse_tree (print (tree_of v) []) ≡ some j
unfolding to_tree
print-parse undefined j h = cc
print-parse (of_tree t) j h = rw (simple_laws.parse-dump t (print t []) refl) h

pub simple_browser_laws : BrowserLaws simple_json simple_browser
unfolding to_tree
simple_browser_laws = record {
  of_json = of_tree;
  parse-dump = parse-print;
  of_json-int = λ n. refl;
  of_json-text = λ s. refl;
  get-found = λ j v k h e. get_member-found j v k e;
  each_of-array = each_value-array;
  same_key-number = λ m n. refl;
  loosely-string = λ s t. refl;
  index-pos = λ i. refl;
  has_length-string = λ s. refl;
  to_json = to_tree;
  parse-stringify = print-parse;
  to_json-number = λ n. refl;
  to_json-string = λ s. refl;
  object_of = object_tree;
  to_json-literal = λ fs. refl;
  object_of-is_object = object_tree-is_object;
  object_of-empty = λ k. refl;
  object_of-head = λ k v fs j h e. object_tree-head k v fs j h;
  object_of-skip = object_tree-skip;
  to_json-array = array_value;
}
