-- ===== src/Page/Mirror/Listed.antt =====
-- The buttons that are in the selector, when one is added, changed or taken out.
use sacs.Prelude.{
  Bool, Bool-cases, List, [], arith, false, if◌then◌else◌, inl, inr, map, refl, suc, true, ℕ, ◌++◌,
  ◌<◌, ◌==◌, ◌||◌, ◌∷◌, ◌≡◌, ◌≤◌,
}
use sacs.Page.{ModuleButton}
use sacs.Page.Environment.{Browser}
use sacs.Page.Mirror.{Rising, has_title, listed, numbers}
use sacs.Page.Selector.{change_button}

abbrev pub firsts {ℓ} : {A : Type ℓ} → List (ℕ × A) → List ℕ
firsts ts = map (λ (t : ℕ × _). t.0) ts

pub Rising-weaken : (lo lo' hi : ℕ) (ns : List ℕ) → lo ≤ lo' → Rising lo' ns hi → Rising lo ns hi
Rising-weaken lo lo' hi [] h r = omega arith
Rising-weaken lo lo' hi (n ∷ ns) h (p, r) = (omega arith, r)

pub Rising-append : (lo n : ℕ) (ns : List ℕ) → Rising lo ns n → Rising lo (ns ++ n ∷ []) (suc n)
Rising-append lo n [] r = (r, omega arith)
Rising-append lo n (k ∷ ns) (p, r) = (p, Rising-append (suc k) n ns r)

-- The titles behind the one of `nr` is taken out.
abbrev pub without {ℓ} : {A : Type ℓ} → ℕ → List (ℕ × A) → List (ℕ × A)
without nr [] = []
without nr (t ∷ ts) = let rest = without nr ts in if t.0 == nr then rest else t ∷ rest

module _ {A : Type 0} where
  pub without-none :
      (nr lo hi : ℕ) (ts : List (ℕ × A)) → Rising lo (firsts ts) hi → nr < lo → without nr ts ≡ ts
  without-none nr lo hi [] r h = refl
  without-none nr lo hi (t ∷ ts) (p, r) h =
      let other : (t.0 == nr) ≡ false = ground arith in
      rw (other, without-none nr (suc t.0) hi ts r (omega arith)) refl

  pub has_title-append :
      (nr : ℕ) (ts : List (ℕ × A)) (t : ℕ × A)
      → has_title nr (ts ++ t ∷ []) ≡ has_title nr ts || (t.0 == nr)
  has_title-append nr [] t = ground arith
  has_title-append nr (x ∷ ts) t = ground (arith, has_title-append nr ts t)

  pub has_title-without :
      (nr k : ℕ) (ts : List (ℕ × A))
      → (nr == k) ≡ false
      → has_title nr (without k ts) ≡ has_title nr ts
  has_title-without nr k [] h = refl
  has_title-without nr k (x ∷ ts) h = ground (arith, has_title-without nr k ts h)

module _ {B : Browser} where
  pub Rising-listed :
      (lo hi : ℕ) (bs : List (ModuleButton B))
      → Rising lo (numbers bs) hi
      → Rising lo (firsts (listed bs)) hi
  Rising-listed lo hi [] r = r
  Rising-listed lo hi (b ∷ bs) (p, r) =
      let later = Rising-listed (suc b.module_no) hi bs r in
      elim (Bool-cases b.in_selector) [
        | inl e ↦ rw e (p, later)
        | inr e ↦
            rw e (Rising-weaken lo (suc b.module_no) hi (firsts (listed bs)) (omega arith) later)
      ]

  pub numbers-append :
      (bs : List (ModuleButton B)) (x : ModuleButton B)
      → numbers (bs ++ x ∷ []) ≡ numbers bs ++ x.module_no ∷ []
  numbers-append [] x = refl
  numbers-append (b ∷ bs) x = rw (numbers-append bs x) refl

  pub listed-append :
      (bs : List (ModuleButton B)) (x : ModuleButton B)
      → x.in_selector ≡ true
      → listed (bs ++ x ∷ []) ≡ listed bs ++ (x.module_no, x.label) ∷ []
  listed-append [] x h = rw h refl
  listed-append (b ∷ bs) x h = elim (Bool-cases b.in_selector) [
    | inl e ↦ rw (e, listed-append bs x h) refl
    | inr e ↦ rw (e, listed-append bs x h) refl
  ]

  pub numbers-change_button :
      (k : ℕ) (change : ModuleButton B → ModuleButton B)
      (same : (b : ModuleButton B) → (change b).module_no ≡ b.module_no)
      (bs : List (ModuleButton B))
      → numbers (change_button k change bs) ≡ numbers bs
  unfolding change_button
  numbers-change_button k change same [] = refl
  numbers-change_button k change same (b ∷ bs) = elim (Bool-cases (b.module_no == k)) [
    | inl e ↦ rw (e, same b) refl
    | inr e ↦ rw (e, numbers-change_button k change same bs) refl
  ]

  pub listed-mark :
      (k : ℕ) (selected : Bool) (bs : List (ModuleButton B))
      → listed (change_button k (λ b. record b { is_selected = selected }) bs) ≡ listed bs
  unfolding change_button
  listed-mark k selected [] = refl
  listed-mark k selected (b ∷ bs) = elim (Bool-cases (b.module_no == k)) [
    | inl e ↦ rw e refl
    | inr e ↦ rw (e, listed-mark k selected bs) refl
  ]

  pub listed-hide :
      (k lo hi : ℕ) (bs : List (ModuleButton B))
      → Rising lo (numbers bs) hi
      → listed (change_button k (λ b. record b { in_selector = false }) bs) ≡ without k (listed bs)
  unfolding change_button
  listed-hide k lo hi [] r = refl
  listed-hide k lo hi (b ∷ bs) (p, r) = elim (Bool-cases (b.module_no == k)) [
    | inl e ↦
        let none_left =
          without-none k (suc b.module_no) hi (listed bs) (Rising-listed (suc b.module_no) hi bs r)
            (ground arith) in
        elim (Bool-cases b.in_selector) [
          | inl i ↦ rw (i, none_left, e) refl
          | inr i ↦ rw (i, none_left, e) refl
        ]
    | inr e ↦ elim (Bool-cases b.in_selector) [
      | inl i ↦ rw (i, e, listed-hide k (suc b.module_no) hi bs r) refl
      | inr i ↦ rw (i, e, listed-hide k (suc b.module_no) hi bs r) refl
    ]
  ]
