-- ===== src/Clients/Decimal.antt =====
-- The standard library's conversions that the examples use: std::to_string and `<<` for an `int`, and
-- std::atoi.
use Prim.Native.Nat.{◌/◌, ◌%◌}
use sacs.Wrapper.Marshalling.{until_nul}
use sacs.Prelude.{
  Bool, Bool-cases, Result, Text, [], arith, if◌then◌else◌, inl, inr, int_overflow, leb, ltb,
  negsuc, ok, pos, refl, suc, tests, throw, zero, ℕ, ℤ, ◌&&◌, ◌*◌, ◌++◌, ◌+◌, ◌-◌, ◌<◌, ◌==◌, ◌||◌,
  ◌∷◌, ◌≡◌, ◌≤◌,
}
use sacs.ModuleManager.{int_max}

-- The digits of `n` before `rest`. A number has fewer digits than its value plus one.
unfoldable pub digits : ℕ → ℕ → Text → Text
digits zero n rest = rest
digits (suc fuel) n rest =
    let more = digits fuel (n / 10) ((b'0' + (n % 10)) ∷ rest) in
    if ltb n 10 then (b'0' + n) ∷ rest else more

abbrev pub decimal : ℕ → Text
decimal n = digits (suc n) n []

unfoldable pub show_int : ℤ → Text
unfolding digits
show_int (pos n) = decimal n
show_int (negsuc n) = b'-' ∷ decimal (suc n)

-- The number that the digits at the start of a text make, with `n` read before them.
unfoldable pub read_digits : ℕ → Text → ℕ
read_digits n [] = n
read_digits n (c ∷ s) =
    let more = read_digits (10 * n + (c - b'0')) s in if leb b'0' c && leb c b'9' then more else n

abbrev pub neg : ℕ → ℤ
neg zero = pos 0
neg (suc n) = negsuc n

-- isspace in the locale "C"
abbrev pub is_space : ℕ → Bool
is_space c = c == b' ' || (leb 9 c && leb c 13)

-- std::atoi, without the bound of `int`, behind the spaces.
abbrev pub read_sign : Text → ℤ
read_sign [] = pos 0
read_sign (c ∷ s) =
    if c == b'-'
    then neg (read_digits 0 s)
    else if c == b'+'
    then pos (read_digits 0 s)
    else pos (read_digits 0 (c ∷ s))

unfoldable pub read_int : Text → ℤ
unfolding read_digits
read_int [] = pos 0
read_int (c ∷ s) = let more = read_int s in if is_space c then more else read_sign (c ∷ s)

abbrev pub is_int : ℤ → Bool
is_int (pos n) = leb n int_max
is_int (negsuc n) = leb n int_max

-- std::atoi, whose behaviour is undefined where the number is no `int`.
unfoldable pub atoi : Text → Result ℤ
unfolding read_int
atoi s = let n = read_int s in if is_int n then ok n else throw int_overflow

read_digits-digit :
    (k d : ℕ) (rest : Text)
    → d < 10
    → read_digits k ((b'0' + d) ∷ rest) ≡ read_digits (10 * k + d) rest
unfolding read_digits
read_digits-digit k d rest h = ground arith

-- With more rounds than the value of `n`, the digits of `n` are read as `n`.
pub read_digits-digits :
    (fuel n : ℕ) (rest : Text) → n < fuel → read_digits 0 (digits fuel n rest) ≡ read_digits n rest
unfolding digits
read_digits-digits zero n rest h = absurd (omega (arith, h))
read_digits-digits (suc fuel) n rest h = ground (
  arith,
  read_digits-digit 0 n rest,
  read_digits-digit (n / 10) (n % 10) rest,
  read_digits-digits fuel (n / 10) ((b'0' + (n % 10)) ∷ rest),
)

-- The digits start with a digit.
digits-head :
    (fuel n : ℕ) (rest : Text)
    → n < fuel
    → (d : ℕ) × (more : Text) × (d < 10) × (digits fuel n rest ≡ (b'0' + d) ∷ more)
unfolding digits
digits-head zero n rest h = absurd (omega (arith, h))
digits-head (suc fuel) n rest h = elim (Bool-cases (ltb n 10)) [
  | inl e ↦ (n, rest, omega (tests, e), rw e refl)
  | inr e ↦
      let (d, more, lt, same) =
        digits-head fuel (n / 10) ((b'0' + (n % 10)) ∷ rest) (ground arith) in
      (d, more, lt, rw e same)
]

pub read_int-digit :
    (d : ℕ) (more : Text)
    → d < 10
    → read_int ((b'0' + d) ∷ more) ≡ pos (read_digits 0 ((b'0' + d) ∷ more))
unfolding read_int
read_int-digit d more h = ground arith

-- std::atoi reads back what std::to_string writes of an `int` from 0 on, up to a character that is
-- no digit.
pub atoi-digits :
    (n : ℕ) (rest : Text)
    → n ≤ int_max
    → read_digits n rest ≡ n
    → atoi (digits (suc n) n rest) ≡ ok (pos n)
unfolding atoi
atoi-digits n rest h ends =
    let (d, more, lt, same) = digits-head (suc n) n rest (omega arith) in
    ground (arith, same, read_int-digit d more lt, read_digits-digits (suc n) n rest)

pub until_nul-digits :
    (fuel n : ℕ) (rest : Text) → until_nul (digits fuel n rest) ≡ digits fuel n (until_nul rest)
unfolding digits until_nul
until_nul-digits zero n rest = refl
until_nul-digits (suc fuel) n rest =
    ground (arith, until_nul-digits fuel (n / 10) ((b'0' + (n % 10)) ∷ rest))

pub digits-append :
    (fuel n : ℕ) (s rest : Text) → digits fuel n s ++ rest ≡ digits fuel n (s ++ rest)
unfolding digits
digits-append zero n s rest = refl
digits-append (suc fuel) n s rest =
    ground (arith, digits-append fuel (n / 10) ((b'0' + (n % 10)) ∷ s) rest)
