-- ===== src/Session/Pending.antt =====
-- The cookie with several values is a bounded list of live entries, newest first.

use email_summary.Prelude.{
  ℕ, suc, zero, ◌≤◌, String, ◌≡◌, refl, subst, Bool, true, false, not, ◌&&◌, List, [], ◌∷◌, str_eq,
  arith, take, length, select, some_pass, All, All-select_keeps, inl, inr, Bool-cases, List-cases,
}
use email_summary.Prelude.Split.{split, join, is_free, split-All, split-join}
use email_summary.Session.{Crypto, Ring, Kept, max_pending, is_live, live, render, with_entry}

module _ (crypto : Crypto) (ring : Ring) (now : ℕ) (kept : Kept) where
  -- An entry that the cookie can carry, and that is live.
  abbrev pub IsEntry : String → Type 0
  IsEntry e =
      (is_free "|" e ≡ true) × (str_eq e "" ≡ false) × (is_live crypto ring now kept e ≡ true)

  live-IsEntry_pieces :
      (pieces : List String)
      → All (λ e. is_free "|" e ≡ true) pieces
      → All IsEntry (select (λ c. not (str_eq c "") && is_live crypto ring now kept c) pieces)
  live-IsEntry_pieces [] f = tt
  live-IsEntry_pieces (e ∷ es) f =
      elim (Bool-cases (not (str_eq e "") && is_live crypto ring now kept e)) [
        | inl keeps ↦ rw keeps ((f.0, ground arith, ground arith), live-IsEntry_pieces es f.1)
        | inr drops ↦ rw drops (live-IsEntry_pieces es f.1)
      ]

  pub live-IsEntry : (cookie : String) → All IsEntry (live crypto ring now kept cookie)
  unfolding live
  live-IsEntry cookie = live-IsEntry_pieces (split "|" cookie) (split-All "|" cookie)

  select-IsEntry :
      (es : List String)
      → All IsEntry es
      → select (λ c. not (str_eq c "") && is_live crypto ring now kept c) es ≡ es
  select-IsEntry [] f = refl
  select-IsEntry (e ∷ es) f = ground (arith, select-IsEntry es f.1, f.0)

  take-All : (n : ℕ) (es : List String) → All IsEntry es → All IsEntry (take n es)
  take-All zero es f = tt
  take-All (suc n) [] f = tt
  take-All (suc n) (e ∷ es) f = (f.0, take-All n es f.1)

  IsEntry-is_free : (es : List String) → All IsEntry es → All (λ e. is_free "|" e ≡ true) es
  IsEntry-is_free [] f = tt
  IsEntry-is_free (e ∷ es) f = (f.0.0, IsEntry-is_free es f.1)

  -- What is rendered is read back, up to the cap.
  pub live-render :
      (es : List String)
      → All IsEntry es
      → live crypto ring now kept (render es) ≡ take max_pending es
  unfolding live render join split
  live-render es f =
      let some_taken = take-All max_pending es f in
      elim (List-cases (take max_pending es)) [
        | inl none_taken ↦ rw (none_taken, join, split) refl
        | inr (x, xs, taken) ↦
            let entries : All IsEntry (x ∷ xs) = subst (All IsEntry) taken some_taken in
            rw (taken, split-join "|" x xs (IsEntry-is_free (x ∷ xs) entries))
              (select-IsEntry (x ∷ xs) entries)
      ]

some_pass-take :
    (p : String → Bool) (n : ℕ) (xs : List String)
    → some_pass p (take n xs) ≡ true
    → some_pass p xs ≡ true
some_pass-take p zero xs h = cc
some_pass-take p (suc n) [] h = h
some_pass-take p (suc n) (x ∷ xs) h = ground (arith, some_pass-take p n xs)

length-take : (n : ℕ) (xs : List String) → length (take n xs) ≤ n
length-take zero xs = omega arith
length-take (suc n) [] = omega arith
length-take (suc n) (x ∷ xs) = omega (arith, length-take n xs)

-- A state that was just set is accepted, next to what was pending before, and the cookie then holds
-- no more than the cap.
pub with_entry_adds :
    (crypto : Crypto) (ring : Ring) (now : ℕ) (kept : Kept) (entry cookie : String)
    → is_free "|" entry ≡ true
    → str_eq entry "" ≡ false
    → is_live crypto ring now kept entry ≡ true
    → (live crypto ring now kept (with_entry crypto ring now kept entry cookie)
        ≡ take max_pending
            (entry ∷ select (λ e. not (str_eq e entry)) (live crypto ring now kept cookie)))
      × (length (live crypto ring now kept (with_entry crypto ring now kept entry cookie))
          ≤ max_pending)
unfolding with_entry
with_entry_adds crypto ring now kept entry cookie free full alive =
    let entries = live crypto ring now kept cookie in
    let all = entry ∷ select (λ e. not (str_eq e entry)) entries in
    let back = live-render crypto ring now kept all (
      (free, full, alive),
      All-select_keeps (IsEntry crypto ring now kept) (λ e. not (str_eq e entry)) entries
          (live-IsEntry crypto ring now kept cookie),
    ) in
    (back, rw back (length-take max_pending all))
