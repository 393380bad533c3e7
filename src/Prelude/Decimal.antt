-- ===== src/Prelude/Decimal.antt =====
-- `str` and `int` on the numbers that are not negative.
use Prim.Native.Nat.{ℕ, zero, suc, ◌+◌, ◌-◌, ◌*◌, ◌/◌, ◌%◌, ◌≤◌, ◌<◌}
use Prim.Native.Char.{Char, code}
use Prim.Native.String.{String}
use mathlib.Core.Path.{◌≡◌, refl, ap, ◌∙◌}
use mathlib.Core.Bool.{Bool, true, false, not, ◌&&◌, ◌||◌}
use mathlib.Core.Option.{Option, none, some}
use mathlib.Core.Logic.{inl, inr}
use native.Mathlib.Omega.{arith}
use email_summary.Prelude.Tests.{leb, ◌==◌, if◌then◌else◌, Bool-cases}
use email_summary.Prelude.Text.{strip, is_space, strip-all_chars}
use email_summary.Prelude.Split.{all_chars}

digit : ℕ → Char
digit zero = "0"
digit (suc zero) = "1"
digit (suc (suc zero)) = "2"
digit (suc (suc (suc zero))) = "3"
digit (suc (suc (suc (suc zero)))) = "4"
digit (suc (suc (suc (suc (suc zero))))) = "5"
digit (suc (suc (suc (suc (suc (suc zero)))))) = "6"
digit (suc (suc (suc (suc (suc (suc (suc zero))))))) = "7"
digit (suc (suc (suc (suc (suc (suc (suc (suc zero)))))))) = "8"
digit n = "9"

abbrev pub is_digit : Char → Bool
is_digit c = leb b'0' (code c) && leb (code c) b'9'

-- The digits of `n` before `after`; as much fuel as `n` is enough.
show_onto : ℕ → ℕ → String → String
unfolding digit
show_onto zero n after = String.◌∷◌ (digit (n % 10)) after
show_onto (suc fuel) n after =
    let more = show_onto fuel (n / 10) (String.◌∷◌ (digit (n % 10)) after) in
    if n / 10 == 0 then String.◌∷◌ (digit (n % 10)) after else more

-- `str(n)`
unfoldable pub show : ℕ → String
unfolding show_onto
show n = show_onto n n ""

-- The rest of a numeral; an underscore may stand between two digits.
read_digits : Bool → ℕ → String → Option ℕ
read_digits after_digit n String.[] = if after_digit then some n else none
read_digits after_digit n (String.◌∷◌ c s) =
    let rest = read_digits (is_digit c) (if is_digit c then n * 10 + (code c - b'0') else n) s in
    if is_digit c || after_digit && code c == b'_' then rest else none

-- Without a plus sign in front.
drop_plus : String → String
drop_plus String.[] = String.[]
drop_plus (String.◌∷◌ c s) = if code c == b'+' then s else String.◌∷◌ c s

-- `int(s)`; `none` where it raises, and for a negative number.
unfoldable pub read : String → Option ℕ
unfolding read_digits drop_plus
read s = read_digits false 0 (drop_plus (strip s))

code-digit : (d : ℕ) → d < 10 → code (digit d) ≡ b'0' + d
unfolding digit
code-digit zero h = refl
code-digit (suc zero) h = refl
code-digit (suc (suc zero)) h = refl
code-digit (suc (suc (suc zero))) h = refl
code-digit (suc (suc (suc (suc zero)))) h = refl
code-digit (suc (suc (suc (suc (suc zero))))) h = refl
code-digit (suc (suc (suc (suc (suc (suc zero)))))) h = refl
code-digit (suc (suc (suc (suc (suc (suc (suc zero))))))) h = refl
code-digit (suc (suc (suc (suc (suc (suc (suc (suc zero)))))))) h = refl
code-digit (suc (suc (suc (suc (suc (suc (suc (suc (suc m))))))))) h =
    let last : m ≡ 0 = omega arith in rw last refl

digit-read : (d : ℕ) → d < 10 → (is_digit (digit d) ≡ true) × (code (digit d) - b'0' ≡ d)
digit-read d h = let known = code-digit d h in (ground arith, omega arith)

all_chars-show_onto :
    (fuel n : ℕ) (after : String)
    → all_chars is_digit after ≡ true
    → all_chars is_digit (show_onto fuel n after) ≡ true
unfolding show_onto
all_chars-show_onto zero n after h =
    let (one, value) = digit-read (n % 10) (omega arith) in rw (one, h) refl
all_chars-show_onto (suc fuel) n after h =
    let (one, value) = digit-read (n % 10) (omega arith) in
    elim (Bool-cases (n / 10 == 0)) [
      | inl small ↦ rw (small, one, h) refl
      | inr large ↦
          rw large (
            all_chars-show_onto fuel (n / 10) (String.◌∷◌ (digit (n % 10)) after)
              (rw (one, h) refl))
    ]

all_chars_mono :
    (p q : Char → Bool) (s : String)
    → ((c : Char) → p c ≡ true → q c ≡ true)
    → all_chars p s ≡ true
    → all_chars q s ≡ true
all_chars_mono p q String.[] f h = refl
all_chars_mono p q (String.◌∷◌ c s) f h = ground (arith, f c, all_chars_mono p q s f)

pub show-all_chars :
    (q : Char → Bool) (n : ℕ)
    → ((c : Char) → is_digit c ≡ true → q c ≡ true)
    → all_chars q (show n) ≡ true
unfolding show
show-all_chars q n f =
    all_chars_mono is_digit q (show_onto n n "") f (all_chars-show_onto n n "" refl)

read_digits-digit :
    (b : Bool) (m d : ℕ) (after : String)
    → d < 10
    → read_digits b m (String.◌∷◌ (digit d) after) ≡ read_digits true (m * 10 + d) after
unfolding read_digits
read_digits-digit b m d after h = let (one, value) = digit-read d h in rw (one, value) refl

read_digits-show_onto :
    (b : Bool) (fuel n : ℕ) (after : String)
    → n ≤ fuel
    → read_digits b 0 (show_onto fuel n after) ≡ read_digits true n after
unfolding show_onto
read_digits-show_onto b zero n after h =
    let none_left : n ≡ 0 = omega arith in
    rw none_left (read_digits-digit b 0 0 after (omega arith))
read_digits-show_onto b (suc fuel) n after h = elim (Bool-cases (n / 10 == 0)) [
  | inl small ↦
      let same : 0 * 10 + n % 10 ≡ n = ground arith in
      rw small (
        read_digits-digit b 0 (n % 10) after (omega arith)
        ∙ ap (λ k. read_digits true k after) same)
  | inr large ↦
      let same : n / 10 * 10 + n % 10 ≡ n = omega arith in
      rw large (
        read_digits-show_onto b fuel (n / 10) (String.◌∷◌ (digit (n % 10)) after) (ground arith)
        ∙ read_digits-digit true (n / 10) (n % 10) after (omega arith)
        ∙ ap (λ k. read_digits true k after) same)
]

drop_plus-show_onto : (s : String) → all_chars is_digit s ≡ true → drop_plus s ≡ s
unfolding drop_plus
drop_plus-show_onto String.[] h = refl
drop_plus-show_onto (String.◌∷◌ c s) h = ground arith

-- What `str` writes, `int` reads back.
pub read-show : (n : ℕ) → read (show n) ≡ some n
unfolding read
read-show n =
    rw
      (
        strip-all_chars (show n)
            (show-all_chars (λ c. not (is_space c)) n (unfold is_space in λ c d. ground arith)),
        drop_plus-show_onto (show n) (show-all_chars is_digit n (λ c d. d)),
      )
      (unfold show in read_digits-show_onto false n n "" (omega arith))
