-- ===== src/Billing/Reconcile/Entitled.antt =====
-- What the loop over the pages of subscriptions reads, and that it ends.
use email_summary.Prelude.{
  ℕ, zero, suc, ◌+◌, ◌<◌, String, ◌≡◌, refl, sym, ap, ◌∙◌, Bool, false, ◌&&◌, ◌||◌, some, List, [],
  ◌∷◌, ◌++◌, str_eq, eq_iff, leb, le→leb, some_pass, arith, inl, inr, Option-cases,
}
use email_summary.Accounts.Store.{ok, same_text}
use email_summary.Billing.Polar.{Polar, Page, Subscription, subscription_entitled}
use email_summary.Billing.Reconcile.{
  Entitlements, mark, mark_subscription, mark_all, last_page, read_pages, entitlement_by_customer,
}

-- The entry of a customer is there and true.
abbrev pub is_entitled : String → Entitlements → Bool
is_entitled c [] = false
is_entitled c (e ∷ es) = str_eq e.0 c && e.1 || is_entitled c es

-- The subscription grants the customer access.
abbrev pub grants_access : String → Subscription → Bool
grants_access c sub = same_text sub.customer_id c && subscription_entitled sub.status

-- The subscriptions of `n` pages from `page` on.
abbrev pub items_of : (ℕ → Page) → ℕ → ℕ → List Subscription
items_of pages zero page = []
items_of pages (suc n) page = (pages page).items ++ items_of pages n (suc page)

is_entitled-mark :
    (c cid : String) (b : Bool) (es : Entitlements)
    → is_entitled c (mark cid b es) ≡ (is_entitled c es || str_eq cid c && b)
is_entitled-mark c cid b [] = ground arith
is_entitled-mark c cid b (e ∷ es) =
    ground (arith, is_entitled-mark c cid b es, eq_iff (e.0) cid, eq_iff cid c, eq_iff (e.0) c)

is_entitled-mark_subscription :
    (c : String) (sub : Subscription) (es : Entitlements)
    → str_eq c "" ≡ false
    → is_entitled c (mark_subscription sub es) ≡ (is_entitled c es || grants_access c sub)
is_entitled-mark_subscription c sub es real = elim (Option-cases sub.customer_id) [
  | inl nobody ↦ rw nobody (ground arith)
  | inr (cid, there) ↦ rw there (
      ground (
        arith,
        is_entitled-mark c cid (subscription_entitled sub.status) es,
        eq_iff cid c,
        eq_iff cid "",
      ))
]

is_entitled-mark_all :
    (c : String) (subs : List Subscription) (es : Entitlements)
    → str_eq c "" ≡ false
    → is_entitled c (mark_all subs es) ≡ (is_entitled c es || some_pass (grants_access c) subs)
is_entitled-mark_all c [] es real = ground arith
is_entitled-mark_all c (sub ∷ subs) es real =
    is_entitled-mark_all c subs (mark_subscription sub es) real
    ∙ rw (is_entitled-mark_subscription c sub es real) (ground arith)

mark_all-append :
    (xs ys : List Subscription) (es : Entitlements)
    → mark_all (xs ++ ys) es ≡ mark_all ys (mark_all xs es)
mark_all-append [] ys es = refl
mark_all-append (x ∷ xs) ys es = mark_all-append xs ys (mark_subscription x es)

append-nil {ℓ} : {A : Type ℓ} (xs : List A) → xs ++ [] ≡ xs
append-nil [] = refl
append-nil (x ∷ xs) = ap (λ ys. x ∷ ys) (append-nil xs)

gt→leb : (a b : ℕ) → b < a → leb a b ≡ false
gt→leb a b h = ground arith

positive : (n : ℕ) → 0 < n → (m : ℕ) × (n ≡ suc m)
positive zero h = absurd (omega arith)
positive (suc m) h = (m, refl)

module _ (polar : Polar) (pages : ℕ → Page) (last : ℕ)
    (answers : (n : ℕ) → polar.list_subscriptions n ≡ some (pages n))
    (says_last : (n : ℕ) → last_page (pages n) ≡ last) where
  read_pages_all :
      (n page : ℕ) (es : Entitlements)
      → page + n ≡ last
      → read_pages (suc n) polar page es ≡ some (ok (mark_all (items_of pages (suc n) page) es))
  unfolding read_pages
  read_pages_all zero page es h =
      rw (read_pages, answers page, says_last page)
        (rw (le→leb last page (omega arith))
          (ap (λ xs. some (ok (mark_all xs es))) (sym (append-nil (pages page).items))))
  read_pages_all (suc n) page es h =
      rw (read_pages, answers page, says_last page)
        (rw (gt→leb last page (omega arith)) (
          read_pages_all n (suc page) (mark_all (pages page).items es) (omega arith)
          ∙ ap (λ xs. some (ok xs))
              (sym (mark_all-append (pages page).items (items_of pages (suc n) (suc page)) es))))

  -- Where Polar answers every page and names the same last page, as many rounds as there are pages
  -- read them all, and a customer is entitled exactly if a subscription of theirs is.
  pub entitlement_by_customer_reads :
      0 < last
      → (es : Entitlements) × (entitlement_by_customer last polar ≡ some (ok es))
        × ((c : String)
            → str_eq c "" ≡ false
            → is_entitled c es ≡ some_pass (grants_access c) (items_of pages last 1))
  unfolding entitlement_by_customer
  entitlement_by_customer_reads h =
      let (n, same) = positive last h in
      (
        mark_all (items_of pages last 1) [],
        rw same (read_pages_all n 1 [] (omega arith)),
        (λ c real. is_entitled-mark_all c (items_of pages last 1) [] real),
      )
