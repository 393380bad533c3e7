-- ===== src/Egress/Authority.antt =====
-- What a CONNECT target is split into.
use Prim.Native.Char.{Char, code}
use Prim.Native.String.{◌++◌}
use text.Mathlib.TextLemmas.{cons-append, nil-append}
use email_summary.Prelude.{
  ℕ, ◌≤◌, String, ◌≡◌, refl, sym, ap, ◌∙◌, Bool, true, false, not, ◌&&◌, none, some, str_eq, eq_iff,
  arith, ◌==◌, inl, inr, Bool-cases,
}
use email_summary.Prelude.Split.{all_chars, is_free}
use email_summary.Prelude.Decimal.{is_digit, show, read, read-show, show-all_chars}
use email_summary.Prelude.Text.{strip, lower}
use email_summary.Egress.{rpartition, split_authority, port_of, is_port, trim_end, is_dot}

rpartition_free : (s : String) → is_free ":" s ≡ true → rpartition s ≡ none
unfolding rpartition
rpartition_free String.[] h = refl
rpartition_free (String.◌∷◌ c s) h =
    let other : (code c == code ":") ≡ false = ground arith in
    rw (rpartition_free s (ground arith), other) refl

rpartition-append :
    (host port : String)
    → is_free ":" port ≡ true
    → rpartition (host ++ String.◌∷◌ ":" port) ≡ some (host, port)
unfolding rpartition
rpartition-append String.[] port h =
    rw (nil-append (String.◌∷◌ ":" port), rpartition, rpartition_free port h) refl
rpartition-append (String.◌∷◌ c host) port h =
    rw (cons-append c host (String.◌∷◌ ":" port), rpartition, rpartition-append host port h) refl

pub all_chars-append :
    (p : Char → Bool) (s t : String)
    → all_chars p s ≡ true
    → all_chars p t ≡ true
    → all_chars p (s ++ t) ≡ true
all_chars-append p String.[] t h k = rw (nil-append t) k
all_chars-append p (String.◌∷◌ c s) t h k =
    let ih = all_chars-append p s t (ground arith) k in rw (cons-append c s t, ih) (ground arith)

-- The characters that a target must not have.
abbrev pub is_plain : String → Bool
is_plain s = is_free "/" s && is_free "@" s && is_free "[" s && is_free "]" s

is_plain-append : (s t : String) → is_plain s ≡ true → is_plain t ≡ true → is_plain (s ++ t) ≡ true
is_plain-append s t h k =
    let slash =
      all_chars-append (λ c. not (code c == code "/")) s t (ground arith) (ground arith) in
    let at = all_chars-append (λ c. not (code c == code "@")) s t (ground arith) (ground arith) in
    let left = all_chars-append (λ c. not (code c == code "[")) s t (ground arith) (ground arith) in
    let right =
      all_chars-append (λ c. not (code c == code "]")) s t (ground arith) (ground arith) in
    rw (slash, at, left, right) refl

is_plain-number : (n : ℕ) → is_plain (String.◌∷◌ ":" (show n)) ≡ true
is_plain-number n =
    let slash = show-all_chars (λ c. not (code c == code "/")) n (λ c d. ground arith) in
    let at = show-all_chars (λ c. not (code c == code "@")) n (λ c d. ground arith) in
    let left = show-all_chars (λ c. not (code c == code "[")) n (λ c d. ground arith) in
    let right = show-all_chars (λ c. not (code c == code "]")) n (λ c d. ground arith) in
    rw (slash, at, left, right) refl

show-is_given : (n : ℕ) → str_eq (show n) "" ≡ false
unfolding read strip
show-is_given n = elim (Bool-cases (str_eq (show n) "")) [
  | inl empty ↦ absurd (cc (sym (read-show n) ∙ ap read ((eq_iff (show n) "").0 empty)))
  | inr given ↦ given
]

port_of-show : (n : ℕ) → port_of (show n) ≡ some n
port_of-show n = rw (show-is_given n, show-all_chars is_digit n (λ c d. d), read-show n) refl

-- A name without those characters, in lower case and without a dot at its end, comes back from
-- `host:port` with its port, where this is a port number.
pub split_authority-show :
    (host : String) (port : ℕ)
    → is_plain host ≡ true
    → str_eq host "" ≡ false
    → lower (trim_end is_dot host) ≡ host
    → 1 ≤ port
    → port ≤ 65_535
    → split_authority (host ++ String.◌∷◌ ":" (show port)) ≡ some (host, port)
unfolding split_authority
split_authority-show host port plain given normal low high =
    let free = show-all_chars (λ c. not (code c == code ":")) port (λ c d. ground arith) in
    let all_plain =
      is_plain-append host (String.◌∷◌ ":" (show port)) plain (is_plain-number port) in
    let range : is_port port ≡ true = ground arith in
    rw (rpartition-append host (show port) free, given, port_of-show port, range, normal, all_plain)
      refl
