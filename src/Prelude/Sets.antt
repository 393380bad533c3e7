-- ===== src/Prelude/Sets.antt =====
-- A Python `set` of texts as a list without repetitions; only membership and size are observed.
use Prim.Native.Nat.{suc, ◌≤◌}
use Prim.Native.String.{String}
use mathlib.Core.Path.{◌≡◌, refl}
use mathlib.Core.Bool.{Bool, true, false, ◌||◌}
use mathlib.Core.List.{List, [], ◌∷◌}
use mathlib.Core.Logic.{inl, inr}
use native.Mathlib.Omega.{arith}
use text.Mathlib.Text.{◌==◌}
use text.Mathlib.TextEquality.{eq_iff}
use email_summary.Prelude.Tests.{if◌then◌else◌, Bool-cases}
use email_summary.Prelude.Lists.{length}

abbrev pub is_member : String → List String → Bool
is_member u [] = false
is_member u (v ∷ vs) = u == v || is_member u vs

abbrev pub add : String → List String → List String
add u s = if is_member u s then s else u ∷ s

-- `seen.update(xs)`
abbrev pub update : List String → List String → List String
update seen [] = seen
update seen (x ∷ xs) = add x (update seen xs)

abbrev pub HasNoRepeats : List String → Type 0
HasNoRepeats [] = Unit
HasNoRepeats (x ∷ xs) = (is_member x xs ≡ false) × HasNoRepeats xs

pub member-add :
    (u v : String) (s : List String) → is_member u (add v s) ≡ (u == v || is_member u s)
member-add u v s = elim (Bool-cases (is_member v s)) [
  | inl old ↦ rw old (ground (arith, eq_iff u v))
  | inr new ↦ rw new refl
]

pub member-update :
    (u : String) (seen xs : List String)
    → is_member u (update seen xs) ≡ (is_member u seen || is_member u xs)
member-update u seen [] = ground arith
member-update u seen (x ∷ xs) = rw member-add (ground (arith, member-update u seen xs))

pub add-HasNoRepeats : (v : String) (s : List String) → HasNoRepeats s → HasNoRepeats (add v s)
add-HasNoRepeats v s h = elim (Bool-cases (is_member v s)) [
  | inl old ↦ rw old h
  | inr new ↦ rw new (new, h)
]

pub update-HasNoRepeats :
    (seen xs : List String) → HasNoRepeats seen → HasNoRepeats (update seen xs)
update-HasNoRepeats seen [] h = h
update-HasNoRepeats seen (x ∷ xs) h =
    add-HasNoRepeats x (update seen xs) (update-HasNoRepeats seen xs h)

abbrev without : String → List String → List String
without u [] = []
without u (v ∷ vs) = if u == v then vs else v ∷ without u vs

length-without :
    (u : String) (s : List String) → is_member u s ≡ true → suc (length (without u s)) ≡ length s
length-without u [] h = ground arith
length-without u (v ∷ vs) h = ground (arith, length-without u vs)

member-without :
    (u v : String) (s : List String)
    → is_member v s ≡ true
    → (u == v) ≡ false
    → is_member v (without u s) ≡ true
member-without u v [] h n = h
member-without u v (w ∷ ws) h n =
    ground (arith, member-without u v ws, eq_iff u w, eq_iff v w, eq_iff u v)

-- A set inside another has no more members.
pub length-le_of_subset :
    (s t : List String)
    → HasNoRepeats s
    → ((u : String) → is_member u s ≡ true → is_member u t ≡ true)
    → length s ≤ length t
length-le_of_subset [] t r h = omega arith
length-le_of_subset (x ∷ s) t r h = omega (
  arith,
  length-without x t (h x (ground (arith, eq_iff x x))),
  length-le_of_subset s (without x t) r.1
      (λ u m. member-without x u t (h u (ground arith)) (ground (arith, eq_iff x u))),
)

pub length-add : (u : String) (s : List String) → length (add u s) ≤ suc (length s)
length-add u s = ground arith
