-- ===== src/JsonMsg/Arrays.antt =====
-- Arrays built by a loop of `push_back` and read by a loop of `at`.
use sacs.Prelude.{List, Result, [], arith, length, ok, refl, some, true, ℕ, ◌+◌, ◌<◌, ◌∙◌, ◌∷◌, ◌≡◌}
use sacs.Json.{JsonLaws, JsonLib, Pushes}
use sacs.JsonMsg.{read_each}
use sacs.JsonMsg.Build.{push_each}

module _ {J : JsonLib} where
  open J use {Json, size, at}

  Pushes-kept : (a v a' : Json) → Pushes J a v a' → (i : ℕ) → i < size a → at a' i ≡ at a i
  Pushes-kept a v a' p i lt = rw (p.elements i) (ground arith)

  Pushes-last : (a v a' : Json) → Pushes J a v a' → at a' (size a) ≡ some v
  Pushes-last a v a' p = rw (p.elements (size a)) (ground arith)

module _ {J : JsonLib} (L : JsonLaws J) where
  open J use {Json, array, size, at, is_array}

  -- The loop has appended `xs`, so that `read` finds them from the old end on.
  pub record Appends {A : Type 0} (read : Json → Result A) (a : Json) (xs : List A) (a' : Json)
      : Type 0 where
    pub stays_array : is_array a' ≡ true
    pub grown : size a' ≡ size a + length xs
    pub kept : (i : ℕ) → i < size a → at a' i ≡ at a i
    pub reads : read_each J read (length xs) (size a) a' ≡ ok xs

  module _ {A : Type 0} (make : A → Result Json) (read : Json → Result A)
      (inverse : (a : A) → (j : Json) × (make a ≡ ok j) × (read j ≡ ok a)) where
    pub push_each-Appends :
        (a : Json) (xs : List A)
        → is_array a ≡ true
        → (a' : Json) × (push_each J make a xs ≡ ok a') × Appends read a xs a'
    unfolding push_each read_each
    push_each-Appends a [] h = (
      a,
      refl,
      record { stays_array = h; grown = omega arith; kept = λ i lt. refl; reads = refl },
    )
    push_each-Appends a (x ∷ xs) h =
        let (j, made, back) = inverse x in
        let (a₁, p) = L.push_back_lem a j h in
        let (a', e, q) = push_each-Appends a₁ xs p.stays_array in
        (
          a',
          rw (made, p.pushed, e) refl,
          record {
            stays_array = q.stays_array;
            grown = omega (arith, q.grown, p.grown);
            kept = λ i lt. q.kept i (omega (arith, p.grown)) ∙ Pushes-kept a j a₁ p i lt;
            reads =
                rw
                  (
                    q.kept (size a) (omega (arith, p.grown)) ∙ Pushes-last a j a₁ p,
                    back,
                    ← p.grown,
                    q.reads,
                  )
                  refl;
          },
        )
