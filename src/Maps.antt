-- ===== src/Maps.antt =====
-- `std::map` with integer keys: a list of entries in the order of their keys.
use sacs.Prelude.{
  ap, ◌++◌, ==ℤ_refl, Bool-cases, List, Option, [], arith, false, if◌then◌else◌, inl, inr, ltb_ℤ,
  ltb_ℤ_connex, ltb_ℤ_ne, ltb_ℤ_trans, none, refl, some, true, ℤ, ◌==ℤ◌, ◌∷◌, ◌≡◌,
}

abbrev pub Map {ℓ} : Type ℓ → Type ℓ
Map V = List (ℤ × V)

ltb_ne_of_ge : (b j k : ℤ) → ltb_ℤ b j ≡ true → ltb_ℤ b k ≡ false → (j ==ℤ k) ≡ false
ltb_ne_of_ge b j k p h = ground arith

ltb_ge_of_ge : (b j k : ℤ) → ltb_ℤ b j ≡ true → ltb_ℤ b k ≡ false → ltb_ℤ j k ≡ false
ltb_ge_of_ge b j k p h = ground arith

==ℤ_symm_false : (a b : ℤ) → (a ==ℤ b) ≡ false → (b ==ℤ a) ≡ false
==ℤ_symm_false a b h = ground arith

module _ {ℓ} {V : Type ℓ} where
  abbrev pub overwrite : V → Option V → Option V
  overwrite v none = none
  overwrite v (some w) = some v

  -- map::find
  unfoldable pub find : ℤ → Map V → Option V
  find k [] = none
  find k ((j, v) ∷ m) = if j ==ℤ k then some v else find k m

  -- map::insert, which leaves an entry that is there as it is.
  unfoldable pub insert : ℤ → V → Map V → Map V
  insert k v [] = (k, v) ∷ []
  insert k v ((j, w) ∷ m) =
      let rest = insert k v m in
      if ltb_ℤ k j then (k, v) ∷ (j, w) ∷ m else if j ==ℤ k then (j, w) ∷ m else (j, w) ∷ rest

  -- map::erase
  unfoldable pub erase : ℤ → Map V → Map V
  erase k [] = []
  erase k ((j, v) ∷ m) = let rest = erase k m in if j ==ℤ k then rest else (j, v) ∷ rest

  -- A write through the value of an entry.
  unfoldable pub assign : ℤ → V → Map V → Map V
  assign k v [] = []
  assign k v ((j, w) ∷ m) =
      let rest = assign k v m in if j ==ℤ k then (j, v) ∷ rest else (j, w) ∷ rest

  abbrev pub get_or : Option V → V → V
  get_or none v = v
  get_or (some w) v = w

  pub find-erase : (k j : ℤ) (m : Map V) → find j (erase k m) ≡ (if j ==ℤ k then none else find j m)
  unfolding find erase
  find-erase k j [] = ground arith
  find-erase k j ((i, v) ∷ m) = ground (arith, find-erase k j m)

  -- The keys rise along the list, from above a bound.
  abbrev pub Above : ℤ → Map V → Type 0
  Above b [] = Unit {0}
  Above b ((k, v) ∷ m) = (ltb_ℤ b k ≡ true) × Above k m

  abbrev pub IsSorted : Map V → Type 0
  IsSorted [] = Unit {0}
  IsSorted ((k, v) ∷ m) = Above k m

  pub Above-weaken : (b c : ℤ) (m : Map V) → ltb_ℤ b c ≡ true → Above c m → Above b m
  Above-weaken b c [] h a = tt
  Above-weaken b c ((k, v) ∷ m) h (p, a) = (ltb_ℤ_trans b c k h p, a)

  pub find-Above : (b k : ℤ) (m : Map V) → Above b m → ltb_ℤ b k ≡ false → find k m ≡ none
  unfolding find
  find-Above b k [] a h = refl
  find-Above b k ((j, v) ∷ m) (p, a) h =
      rw (ltb_ne_of_ge b j k p h) (find-Above j k m a (ltb_ge_of_ge b j k p h))

  insert-Above :
      (b k : ℤ) (v : V) (m : Map V) → Above b m → ltb_ℤ b k ≡ true → Above b (insert k v m)
  unfolding insert
  insert-Above b k v [] a h = (h, tt)
  insert-Above b k v ((j, w) ∷ m) (p, a) h = elim (Bool-cases (ltb_ℤ k j)) [
    | inl lt ↦ rw lt (h, (lt, a))
    | inr ge ↦ elim (Bool-cases (j ==ℤ k)) [
      | inl e ↦ rw (ge, e) (p, a)
      | inr ne ↦
          rw (ge, ne) (p, insert-Above j k v m a (ltb_ℤ_connex k j ge (==ℤ_symm_false j k ne)))
    ]
  ]

  erase-Above : (b k : ℤ) (m : Map V) → Above b m → Above b (erase k m)
  unfolding erase
  erase-Above b k [] a = tt
  erase-Above b k ((j, w) ∷ m) (p, a) = elim (Bool-cases (j ==ℤ k)) [
    | inl e ↦ rw e (erase-Above b k m (Above-weaken b j m p a))
    | inr ne ↦ rw ne (p, erase-Above j k m a)
  ]

  assign-Above : (b k : ℤ) (v : V) (m : Map V) → Above b m → Above b (assign k v m)
  unfolding assign
  assign-Above b k v [] a = tt
  assign-Above b k v ((j, w) ∷ m) (p, a) = elim (Bool-cases (j ==ℤ k)) [
    | inl e ↦ rw e (p, assign-Above j k v m a)
    | inr ne ↦ rw ne (p, assign-Above j k v m a)
  ]

  pub Above-IsSorted : (b : ℤ) (m : Map V) → Above b m → IsSorted m
  Above-IsSorted b [] a = tt
  Above-IsSorted b ((k, v) ∷ m) (p, a) = a

  -- The three writes keep the entries in order.
  pub insert-IsSorted : (k : ℤ) (v : V) (m : Map V) → IsSorted m → IsSorted (insert k v m)
  unfolding insert
  insert-IsSorted k v [] s = tt
  insert-IsSorted k v ((j, w) ∷ m) s = elim (Bool-cases (ltb_ℤ k j)) [
    | inl lt ↦ rw lt (lt, s)
    | inr ge ↦ elim (Bool-cases (j ==ℤ k)) [
      | inl e ↦ rw (ge, e) s
      | inr ne ↦ rw (ge, ne) (insert-Above j k v m s (ltb_ℤ_connex k j ge (==ℤ_symm_false j k ne)))
    ]
  ]

  pub erase-IsSorted : (k : ℤ) (m : Map V) → IsSorted m → IsSorted (erase k m)
  unfolding erase
  erase-IsSorted k [] s = tt
  erase-IsSorted k ((j, w) ∷ m) s = elim (Bool-cases (j ==ℤ k)) [
    | inl e ↦ rw e (erase-IsSorted k m (Above-IsSorted j m s))
    | inr ne ↦ rw ne (erase-Above j k m s)
  ]

  pub assign-IsSorted : (k : ℤ) (v : V) (m : Map V) → IsSorted m → IsSorted (assign k v m)
  unfolding assign
  assign-IsSorted k v [] s = tt
  assign-IsSorted k v ((j, w) ∷ m) s = elim (Bool-cases (j ==ℤ k)) [
    | inl e ↦ rw e (assign-Above j k v m s)
    | inr ne ↦ rw ne (assign-Above j k v m s)
  ]

module _ {V : Type 0} where
  pub find-insert :
      (k j : ℤ) (v : V) (m : Map V)
      → IsSorted m
      → find j (insert k v m) ≡ (if j ==ℤ k then some (get_or (find k m) v) else find j m)
  unfolding find insert
  find-insert k j v [] s = ground arith
  find-insert k j v ((i, w) ∷ m) s =
      ground (arith, find-insert k j v m (Above-IsSorted i m s), find-Above i k m s)

  pub find-assign :
      (k j : ℤ) (v : V) (m : Map V)
      → find j (assign k v m) ≡ (if j ==ℤ k then overwrite v (find k m) else find j m)
  unfolding find assign
  find-assign k j v [] = ground arith
  find-assign k j v ((i, u) ∷ m) = ground (arith, find-assign k j v m)

module _ {ℓ} {V : Type ℓ} where
  pub find-Above-lt :
      (b k : ℤ) (m : Map V) {v : V} → Above b m → find k m ≡ some v → ltb_ℤ b k ≡ true
  find-Above-lt b k m a h = elim (Bool-cases (ltb_ℤ b k)) [
    | inl e ↦ e
    | inr e ↦ cc (find-Above b k m a e)
  ]

  -- A later entry of a sorted map is found past the first.
  pub find-tail :
      (i k : ℤ) (w : V) (m : Map V) {v : V}
      → IsSorted ((i, w) ∷ m)
      → find k m ≡ some v
      → find k ((i, w) ∷ m) ≡ some v
  unfolding find
  find-tail i k w m s h = rw (ltb_ℤ_ne i k (find-Above-lt i k m s h)) h

  pub find-head : (i : ℤ) (w : V) (m : Map V) → find i ((i, w) ∷ m) ≡ some w
  unfolding find
  find-head i w m = rw (==ℤ_refl i)

  -- Without an entry there is nothing to take out or to overwrite.
  pub erase-absent : (k : ℤ) (m : Map V) → find k m ≡ none → erase k m ≡ m
  unfolding find erase
  erase-absent k [] h = refl
  erase-absent k ((j, v) ∷ m) h = elim (Bool-cases (j ==ℤ k)) [
    | inl e ↦ cc (rw e at h)
    | inr e ↦ rw (e, erase-absent k m (rw e at h)) refl
  ]

  pub assign-absent : (k : ℤ) (w : V) (m : Map V) → find k m ≡ none → assign k w m ≡ m
  unfolding find assign
  assign-absent k w [] h = refl
  assign-absent k w ((j, v) ∷ m) h = elim (Bool-cases (j ==ℤ k)) [
    | inl e ↦ cc (rw e at h)
    | inr e ↦ rw (e, assign-absent k w m (rw e at h)) refl
  ]

  -- In a sorted map the first key is in no later entry.
  pub find-first :
      (i k : ℤ) (w : V) (m : Map V) → (i ==ℤ k) ≡ true → IsSorted ((i, w) ∷ m) → find k m ≡ none
  find-first i k w m e s = find-Above i k m s (ground arith)

  -- A key above all others comes last.
  pub insert-last :
      (k : ℤ) (v : V) (m : Map V)
      → IsSorted m
      → ((j : ℤ) (w : V) → find j m ≡ some w → ltb_ℤ j k ≡ true)
      → insert k v m ≡ m ++ (k, v) ∷ []
  unfolding insert
  insert-last k v [] s h = refl
  insert-last k v ((j, w) ∷ m) s h =
      let lt = h j w (find-head j w m) in
      let ge : ltb_ℤ k j ≡ false = ground arith in
      rw (ge, ltb_ℤ_ne j k lt)
        (ap (λ (r : Map V). (j, w) ∷ r)
          (insert-last k v m (Above-IsSorted j m s) (λ i u f. h i u (find-tail j i w m s f))))

  Above-later : (b k : ℤ) (v : V) (m r : Map V) → Above b (m ++ (k, v) ∷ r) → ltb_ℤ b k ≡ true
  Above-later b k v [] r (p, a) = p
  Above-later b k v ((j, w) ∷ m) r (p, a) = ltb_ℤ_trans b j k p (Above-later j k v m r a)

  -- In a sorted map the key of an entry is in none before it.
  pub find-front : (k : ℤ) (v : V) (m r : Map V) → IsSorted (m ++ (k, v) ∷ r) → find k m ≡ none
  unfolding find
  find-front k v [] r s = refl
  find-front k v ((j, w) ∷ m) r s =
      let ne : (j ==ℤ k) ≡ false = ltb_ℤ_ne j k (Above-later j k v m r s) in
      rw ne (find-front k v m r (Above-IsSorted j (m ++ (k, v) ∷ r) s))
