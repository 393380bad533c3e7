-- ===== src/Prelude/Text.antt =====
-- `str.strip` and `str.lower` on ASCII text; other characters are left as they are.
use Prim.Native.Char.{Char, code}
use Prim.Native.String.{String}
use mathlib.Core.Path.{◌≡◌, refl}
use mathlib.Core.Bool.{Bool, ◌&&◌, ◌||◌}
use text.Mathlib.Text.{◌==◌ as str_eq}
use mathlib.Core.Bool.{true, not}
use native.Mathlib.Omega.{arith}
use email_summary.Prelude.Tests.{leb, ◌==◌, if◌then◌else◌}
use email_summary.Prelude.Split.{all_chars}

unfoldable pub is_space : Char → Bool
is_space c = leb 9 (code c) && leb (code c) 13 || leb 28 (code c) && leb (code c) 32

strip_left : String → String
strip_left String.[] = String.[]
strip_left (String.◌∷◌ c s) = let rest = strip_left s in if is_space c then rest else String.◌∷◌ c s

strip_right : String → String
strip_right String.[] = String.[]
strip_right (String.◌∷◌ c s) =
    let rest = strip_right s in
    if is_space c && str_eq rest "" then String.[] else String.◌∷◌ c rest

unfoldable pub strip : String → String
unfolding strip_left strip_right is_space
strip s = strip_right (strip_left s)

-- The character of the second text at the place of `c` in the first.
translate : Char → String → String → Char
translate c (String.◌∷◌ u us) (String.◌∷◌ l ls) = if code c == code u then l else translate c us ls
translate c _ _ = c

unfoldable pub lower : String → String
unfolding translate
lower String.[] = String.[]
lower (String.◌∷◌ c s) =
    String.◌∷◌ (translate c "ABCDEFGHIJKLMNOPQRSTUVWXYZ" "abcdefghijklmnopqrstuvwxyz") (lower s)

-- `s.strip().lower()`
unfoldable pub norm : String → String
unfolding strip lower
norm s = lower (strip s)

norm_runs : norm "  Ada@Example.ORG " ≡ "ada@example.org"
unfolding norm
norm_runs = refl

strip_right-all_chars :
    (s : String) → all_chars (λ c. not (is_space c)) s ≡ true → strip_right s ≡ s
unfolding strip_right
strip_right-all_chars String.[] h = refl
strip_right-all_chars (String.◌∷◌ c s) h = ground (arith, strip_right-all_chars s)

strip_left-all_chars : (s : String) → all_chars (λ c. not (is_space c)) s ≡ true → strip_left s ≡ s
unfolding strip_left
strip_left-all_chars String.[] h = refl
strip_left-all_chars (String.◌∷◌ c s) h = ground arith

-- A text without spaces is stripped already.
pub strip-all_chars : (s : String) → all_chars (λ c. not (is_space c)) s ≡ true → strip s ≡ s
unfolding strip
strip-all_chars s h = rw (strip_left-all_chars s h) (strip_right-all_chars s h)
