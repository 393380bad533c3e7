-- ===== src/Prelude/Split.antt =====
-- `str.split` at one character, and `str.join`.
use Prim.Native.Char.{Char, code}
use Prim.Native.String.{String, ◌++◌}
use mathlib.Core.Path.{◌≡◌, refl, sym, ap, subst, ◌∙◌}
use mathlib.Core.Bool.{Bool, true, false, not, ◌&&◌}
use mathlib.Core.List.{List, [], ◌∷◌}
use mathlib.Core.List
use mathlib.Core.Logic.{inl, inr}
use native.Mathlib.Omega.{arith}
use text.Mathlib.TextLemmas.{append_assoc, cons-append, nil-append}
use text.Mathlib.TextEquality.{Char-path}
use email_summary.Prelude.Lists.{All}
use email_summary.Prelude.Tests.{◌==◌, if◌then◌else◌, Bool-cases}

-- Every character passes the test.
abbrev pub all_chars : (Char → Bool) → String → Bool
all_chars p String.[] = true
all_chars p (String.◌∷◌ c s) = p c && all_chars p s

-- The text has no such character.
abbrev pub is_free : Char → String → Bool
is_free sep = all_chars (λ c. not (code c == code sep))

-- The first piece, with one character more in front.
abbrev pub onto_first : Char → List String → List String
onto_first c [] = String.◌∷◌ c String.[] ∷ []
onto_first c (piece ∷ pieces) = String.◌∷◌ c piece ∷ pieces

-- `s.split(sep)`
unfoldable pub split : Char → String → List String
split sep String.[] = String.[] ∷ []
split sep (String.◌∷◌ c s) =
    let rest = split sep s in if code c == code sep then String.[] ∷ rest else onto_first c rest

-- `sep.join(pieces)`
unfoldable pub join : Char → List String → String
join sep [] = String.[]
join sep (piece ∷ []) = piece
join sep (piece ∷ next ∷ pieces) = piece ++ String.◌∷◌ sep (join sep (next ∷ pieces))

same_code : (c : Char) → (code c == code c) ≡ true
same_code c = ground arith

join-onto_first :
    (sep c : Char) (piece : String) (pieces : List String)
    → join sep (String.◌∷◌ c piece ∷ pieces) ≡ String.◌∷◌ c (join sep (piece ∷ pieces))
unfolding join
join-onto_first sep c piece [] = refl
join-onto_first sep c piece (next ∷ pieces) =
    cons-append c piece (String.◌∷◌ sep (join sep (next ∷ pieces)))

pub split_first :
    (sep : Char) (s : String)
    → (piece : String) × (pieces : List String) × (split sep s ≡ piece ∷ pieces)
unfolding split
split_first sep String.[] = (String.[], [], refl)
split_first sep (String.◌∷◌ c s) =
    let (piece, pieces, h) = split_first sep s in
    elim (Bool-cases (code c == code sep)) [
      | inl cut ↦ rw cut (String.[], split sep s, refl)
      | inr kept ↦ rw (kept, h) (String.◌∷◌ c piece, pieces, refl)
    ]

pub split-free : (sep : Char) (s : String) → is_free sep s ≡ true → split sep s ≡ s ∷ []
unfolding split
split-free sep String.[] h = refl
split-free sep (String.◌∷◌ c s) h =
    let kept : (code c == code sep) ≡ false = ground arith in
    rw (kept, split-free sep s (ground arith)) refl

pub split-append :
    (sep : Char) (s t : String)
    → split sep (s ++ String.◌∷◌ sep t) ≡ List.◌++◌ (split sep s) (split sep t)
unfolding split
split-append sep String.[] t = rw (nil-append, split) (rw (same_code sep) refl)
split-append sep (String.◌∷◌ c s) t =
    rw (cons-append c s (String.◌∷◌ sep t), split, split-append sep s t)
      (elim (Bool-cases (code c == code sep)) [
        | inl cut ↦ rw cut refl
        | inr kept ↦ let (piece, pieces, first) = split_first sep s in rw (kept, first) refl
      ])

pub join-split : (sep : Char) (s : String) → join sep (split sep s) ≡ s
unfolding join split
join-split sep String.[] = refl
join-split sep (String.◌∷◌ c s) =
    let (piece, pieces, first) = split_first sep s in
    let ih : join sep (piece ∷ pieces) ≡ s = ap (join sep) (sym first) ∙ join-split sep s in
    elim (Bool-cases (code c == code sep)) [
      | inl cut ↦
          let same : c ≡ sep = Char-path c sep (ground arith) in
          rw (cut, first, ih, nil-append) (ap (λ x. String.◌∷◌ x s) (sym same))
      | inr kept ↦ rw (kept, first) (join-onto_first sep c piece pieces ∙ ap (String.◌∷◌ c) ih)
    ]

-- Two non-empty lists of pieces, joined.
pub join-append :
    (sep : Char) (x : String) (xs : List String) (y : String) (ys : List String)
    → join sep (List.◌++◌ (x ∷ xs) (y ∷ ys))
      ≡ join sep (x ∷ xs) ++ String.◌∷◌ sep (join sep (y ∷ ys))
unfolding join
join-append sep x [] y ys = refl
join-append sep x (z ∷ xs) y ys = rw (join-append sep z xs y ys) (
    sym (
      append_assoc x (String.◌∷◌ sep (join sep (z ∷ xs))) (String.◌∷◌ sep (join sep (y ∷ ys)))
      ∙ ap (λ s. x ++ s)
          (cons-append sep (join sep (z ∷ xs)) (String.◌∷◌ sep (join sep (y ∷ ys))))))

-- No piece has the separator.
pub split-All : (sep : Char) (s : String) → All (λ p. is_free sep p ≡ true) (split sep s)
unfolding split
split-All sep String.[] = (refl, tt)
split-All sep (String.◌∷◌ c s) =
    let (piece, pieces, first) = split_first sep s in
    let ih : All (λ p. is_free sep p ≡ true) (piece ∷ pieces) =
      subst (All (λ p. is_free sep p ≡ true)) first (split-All sep s) in
    elim (Bool-cases (code c == code sep)) [
      | inl cut ↦ rw (cut, first) (refl, ih)
      | inr kept ↦ rw (kept, first) (ground arith, ih.1)
    ]

-- Pieces without the separator are what their join splits into.
pub split-join :
    (sep : Char) (x : String) (xs : List String)
    → All (λ p. is_free sep p ≡ true) (x ∷ xs)
    → split sep (join sep (x ∷ xs)) ≡ x ∷ xs
unfolding join
split-join sep x [] f = split-free sep x f.0
split-join sep x (y ∷ xs) f =
    split-append sep x (join sep (y ∷ xs))
    ∙ rw (split-free sep x f.0) (ap (λ r. x ∷ r) (split-join sep y xs f.1))
