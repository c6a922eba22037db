-- ===== src/Prelude/Outcome.antt =====
-- Code that may throw. No exception is caught in the repository but `parse_error`, so that a fault
-- ends the operation, and nothing is said of the state behind it.
use mathlib.Core.Path.{◌≡◌, refl, subst}
use mathlib.Core.Option.{Option, none, some}

-- `out_of_range` is thrown by `at` of the standard library, and `json_error` is an exception of the
-- JSON library. `null_deref` and `int_overflow` are undefined behaviour. `deadlock` is a wait that
-- never ends, and `bad_enum` a cast to an enumeration that has no such value. A read out of bounds is
-- `out_of_range` too. `type_error` is what JavaScript throws at the use of a value that has no such
-- member.
pub data Fault : Type 0 where
  out_of_range json_error null_deref int_overflow deadlock bad_enum type_error : Fault

pub data Result {ℓ} (A : Type ℓ) : Type ℓ where
  ok : A → Result A
  throw : Fault → Result A

infixl 5 ◌>>=◌
abbrev pub ◌>>=◌ {ℓ κ} : {A : Type ℓ} {B : Type κ} → Result A → (A → Result B) → Result B
throw fault >>= next = throw fault
ok a >>= next = next a

abbrev pub or_throw {ℓ} : {A : Type ℓ} → Fault → Option A → Result A
or_throw e none = throw e
or_throw e (some a) = ok a

pub >>=-assoc {ℓ κ μ} :
    {A : Type ℓ} {B : Type κ} {C : Type μ} (r : Result A) (f : A → Result B) (g : B → Result C)
    → ((r >>= f) >>= g) ≡ (r >>= (λ a. f a >>= g))
>>=-assoc (throw fault) f g = refl
>>=-assoc (ok a) f g = refl

pub >>=-congr {ℓ κ} :
    {A : Type ℓ} {B : Type κ} (r : Result A) (f g : A → Result B)
    → ((a : A) → f a ≡ g a)
    → (r >>= f) ≡ (r >>= g)
>>=-congr (throw fault) f g h = refl
>>=-congr (ok a) f g h = h a

-- What a chain that gives a result has gone through.
pub >>=-eq-ok {ℓ κ} :
    {A : Type ℓ} {B : Type κ} (r : Result A) (next : A → Result B) {y : B}
    → (r >>= next) ≡ ok y
    → (x : A) × (r ≡ ok x) × (next x ≡ ok y)
>>=-eq-ok (throw fault) next e = cc
>>=-eq-ok (ok x) next e = (x, refl, e)

pub ok-injective {ℓ} : {A : Type ℓ} {a b : A} → ok a ≡ ok b → a ≡ b
ok-injective h = cc

pub ok_subst {ℓ κ} : {A : Type ℓ} (P : A → Type κ) {a b : A} → ok a ≡ ok b → P a → P b
ok_subst P h p = subst P (ok-injective h) p

pub ok_subst_snd {ℓ κ μ} :
    {A : Type ℓ} {B : Type κ} (P : B → Type μ) {a c : A} {b d : B}
    → ◌≡◌ {A = Result (A × B)} (ok (a, b)) (ok (c, d))
    → P b
    → P d
ok_subst_snd {A} {B} P h p = subst (λ (r : A × B). P r.1) (ok-injective h) p

pub ok_subst_fst {ℓ κ μ} :
    {A : Type ℓ} {B : Type κ} (P : A → Type μ) {a c : A} {b d : B}
    → ◌≡◌ {A = Result (A × B)} (ok (a, b)) (ok (c, d))
    → P a
    → P c
ok_subst_fst {A} {B} P h p = subst (λ (r : A × B). P r.0) (ok-injective h) p
