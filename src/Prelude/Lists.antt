-- ===== src/Prelude/Lists.antt =====
-- Lists counted, filtered and searched by Boolean tests.
use Prim.Native.Nat.{ℕ, zero, suc, ◌+◌, ◌≤◌, ◌<◌}
use mathlib.Core.Path.{◌≡◌, refl}
use mathlib.Core.Bool.{Bool, true, false, ◌||◌}
use mathlib.Core.List.{List, [], ◌∷◌, ◌++◌}
use native.Mathlib.Omega.{arith}
use email_summary.Prelude.Tests.{if◌then◌else◌, Bool-cases}
use mathlib.Core.Logic.{◌⊎◌, inl, inr}

-- Every item has the property.
abbrev pub All {ℓ κ} : {A : Type ℓ} → (A → Type κ) → List A → Type κ
All P [] = Unit
All P (x ∷ xs) = P x × All P xs

pub List-cases {ℓ} :
    {A : Type ℓ} (xs : List A) → (xs ≡ []) ⊎ ((x : A) × (r : List A) × (xs ≡ x ∷ r))
List-cases [] = inl refl
List-cases (x ∷ r) = inr (x, r, refl)

module _ {ℓ} {A : Type ℓ} where
  abbrev pub length : List A → ℕ
  length [] = 0
  length (x ∷ xs) = suc (length xs)

  abbrev pub take : ℕ → List A → List A
  take zero xs = []
  take (suc n) [] = []
  take (suc n) (x ∷ xs) = x ∷ take n xs

  -- How many items pass the test.
  abbrev pub count : (A → Bool) → List A → ℕ
  count p [] = 0
  count p (x ∷ xs) = if p x then suc (count p xs) else count p xs

  -- The items that pass the test, in order: `[x for x in xs if p(x)]`.
  abbrev pub select : (A → Bool) → List A → List A
  select p [] = []
  select p (x ∷ xs) = if p x then x ∷ select p xs else select p xs

  -- `any(p(x) for x in xs)`.
  abbrev pub some_pass : (A → Bool) → List A → Bool
  some_pass p [] = false
  some_pass p (x ∷ xs) = p x || some_pass p xs

  pub length-append : (xs ys : List A) → length (xs ++ ys) ≡ length xs + length ys
  length-append [] ys = omega arith
  length-append (x ∷ xs) ys = omega (arith, length-append xs ys)

  pub length-select : (p : A → Bool) (xs : List A) → length (select p xs) ≡ count p xs
  length-select p [] = refl
  length-select p (x ∷ xs) = ground (arith, length-select p xs)

  -- A stronger test passes no more items.
  pub count-le :
      (p q : A → Bool) (xs : List A) → ((x : A) → p x ≡ true → q x ≡ true) → count p xs ≤ count q xs
  count-le p q [] h = omega arith
  count-le p q (x ∷ xs) h = ground (arith, h x, count-le p q xs h)

  pub some_pass-count : (p : A → Bool) (xs : List A) → 0 < count p xs → some_pass p xs ≡ true
  some_pass-count p [] h = absurd (omega arith)
  some_pass-count p (x ∷ xs) h = ground (arith, some_pass-count p xs)

  pub count-select_le : (p keep : A → Bool) (xs : List A) → count p (select keep xs) ≤ count p xs
  count-select_le p keep [] = omega arith
  count-select_le p keep (x ∷ xs) = ground (arith, count-select_le p keep xs)

  -- Removing items that a test never counts changes no count.
  pub count-select :
      (p keep : A → Bool) (xs : List A)
      → ((x : A) → p x ≡ true → keep x ≡ true)
      → count p (select keep xs) ≡ count p xs
  count-select p keep [] h = refl
  count-select p keep (x ∷ xs) h = ground (arith, h x, count-select p keep xs h)

  pub count-congr : (p q : A → Bool) (xs : List A) → ((x : A) → p x ≡ q x) → count p xs ≡ count q xs
  count-congr p q [] h = refl
  count-congr p q (x ∷ xs) h = ground (arith, h x, count-congr p q xs h)

  -- Two tests that never both pass count apart what their disjunction counts.
  pub count-or :
      (p q : A → Bool) (xs : List A)
      → ((x : A) → p x ≡ true → q x ≡ false)
      → count (λ x. p x || q x) xs ≡ count p xs + count q xs
  count-or p q [] h = omega arith
  count-or p q (x ∷ xs) h = ground (arith, h x, count-or p q xs h)

  pub count-false : (p : A → Bool) (xs : List A) → ((x : A) → p x ≡ false) → count p xs ≡ 0
  count-false p [] h = refl
  count-false p (x ∷ xs) h = ground (arith, h x, count-false p xs h)

  pub some_pass-select :
      (p keep : A → Bool) (xs : List A)
      → some_pass p (select keep xs) ≡ true
      → some_pass p xs ≡ true
  some_pass-select p keep [] h = h
  some_pass-select p keep (x ∷ xs) h = ground (arith, some_pass-select p keep xs)

  pub select-select :
      (p keep : A → Bool) (xs : List A)
      → ((x : A) → p x ≡ true → keep x ≡ true)
      → select p (select keep xs) ≡ select p xs
  select-select p keep [] h = refl
  select-select p keep (x ∷ xs) h = ground (arith, h x, select-select p keep xs h)

  pub some_pass-congr :
      (p q : A → Bool) (xs : List A) → ((x : A) → p x ≡ q x) → some_pass p xs ≡ some_pass q xs
  some_pass-congr p q [] h = refl
  some_pass-congr p q (x ∷ xs) h = ground (arith, h x, some_pass-congr p q xs h)

  pub some_pass-or :
      (p q : A → Bool) (xs : List A)
      → some_pass (λ x. p x || q x) xs ≡ (some_pass p xs || some_pass q xs)
  some_pass-or p q [] = refl
  some_pass-or p q (x ∷ xs) = ground (arith, some_pass-or p q xs)

  pub some_pass_mono :
      (p q : A → Bool) (xs : List A)
      → ((x : A) → p x ≡ true → q x ≡ true)
      → some_pass p xs ≡ true
      → some_pass q xs ≡ true
  some_pass_mono p q [] h e = e
  some_pass_mono p q (x ∷ xs) h e = ground (arith, h x, some_pass_mono p q xs h)

  pub some_pass-false :
      (p : A → Bool) (xs : List A) → ((x : A) → p x ≡ false) → some_pass p xs ≡ false
  some_pass-false p [] h = refl
  some_pass-false p (x ∷ xs) h = ground (arith, h x, some_pass-false p xs h)

pub All-select {ℓ κ} :
    {A : Type ℓ} (P : A → Type κ) (keep : A → Bool) (xs : List A)
    → ((x : A) → keep x ≡ true → P x)
    → All P (select keep xs)
All-select P keep [] h = tt
All-select P keep (x ∷ xs) h = elim (Bool-cases (keep x)) [
  | inl in_list ↦ rw in_list (h x in_list, All-select P keep xs h)
  | inr out ↦ rw out (All-select P keep xs h)
]

pub All-select_keeps {ℓ κ} :
    {A : Type ℓ} (P : A → Type κ) (keep : A → Bool) (xs : List A)
    → All P xs
    → All P (select keep xs)
All-select_keeps P keep [] h = tt
All-select_keeps P keep (x ∷ xs) h = elim (Bool-cases (keep x)) [
  | inl in_list ↦ rw in_list (h.0, All-select_keeps P keep xs h.1)
  | inr out ↦ rw out (All-select_keeps P keep xs h.1)
]

pub All-mono {ℓ κ} :
    {A : Type ℓ} (P Q : A → Type κ) (xs : List A) → ((x : A) → P x → Q x) → All P xs → All Q xs
All-mono P Q [] f h = tt
All-mono P Q (x ∷ xs) f h = (f x h.0, All-mono P Q xs f h.1)
