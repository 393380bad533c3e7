-- ===== src/Daemon/Mailbox/Fetched.antt =====
-- Which listed messages a fetch brings, and which it misses.
use email_summary.Prelude.{
  ℕ, zero, suc, ◌+◌, String, ◌⊎◌, ◌≡◌, refl, sym, ap, ◌∙◌, Bool, false, none, some, List, [], ◌∷◌,
  ◌++◌, str_eq, arith, take, count, ◌==◌, inl, inr, Bool-cases, Option-cases,
}
use email_summary.Accounts.Store.{given, or_text}
use email_summary.Daemon.Mailbox.{
  Reply, signed_out, broken_off, http_error, replied, ◌>>=◌, HistoryPage, Pages, ends, more, Gmail,
  Mail, Payload, Listing, newest, read_history, from_keys, history_list, max_emails, fetch_each,
  fetch_ids, annotate_one, annotate, fetch_listed,
}

-- How a reply can be.
abbrev ReplyCase {ℓ} : {A : Type ℓ} → Reply A → Type ℓ
ReplyCase {A = A} r =
    (r ≡ signed_out)
    ⊎ ((r ≡ broken_off) ⊎ (((code : ℕ) × (r ≡ http_error code)) ⊎ ((a : A) × (r ≡ replied a))))

pub Reply-cases {ℓ} : {A : Type ℓ} (r : Reply A) → ReplyCase r
Reply-cases signed_out = inl refl
Reply-cases broken_off = inr (inl refl)
Reply-cases (http_error code) = inr (inr (inl (code, refl)))
Reply-cases (replied a) = inr (inr (inr (a, refl)))

-- What a chain that was answered went through.
pub chain_replied {ℓ ℓ'} :
    {A : Type ℓ} {B : Type ℓ'} (r : Reply A) (next : A → Reply B) (b : B)
    → (r >>= next) ≡ replied b
    → (a : A) × (r ≡ replied a) × (next a ≡ replied b)
chain_replied signed_out next b h = cc
chain_replied broken_off next b h = cc
chain_replied (http_error code) next b h = cc
chain_replied (replied a) next b h = (a, refl, h)

pub count-append {ℓ} :
    {A : Type ℓ} (p : A → Bool) (xs ys : List A) → count p (xs ++ ys) ≡ count p xs + count p ys
count-append p [] ys = omega arith
count-append p (x ∷ xs) ys = ground (arith, count-append p xs ys)

-- The mails whose ids pass.
abbrev pub by_id : (String → Bool) → Mail → Bool
by_id q m = q m.id

-- The ids that an HttpError kept from being fetched.
abbrev pub unfetched : Gmail → List String → List String
unfetched gmail [] = []
unfetched gmail (id ∷ ids) =
    let rest = unfetched gmail ids in
    elim (gmail.message id) [ http_error code ↦ id ∷ rest | _ ↦ rest ]

-- What is left of a list after its first items.
abbrev pub beyond {ℓ} : {A : Type ℓ} → ℕ → List A → List A
beyond zero xs = xs
beyond (suc n) [] = []
beyond (suc n) (x ∷ xs) = beyond n xs

count-take {ℓ} :
    {A : Type ℓ} (q : A → Bool) (n : ℕ) (xs : List A)
    → count q (take n xs) + count q (beyond n xs) ≡ count q xs
count-take q zero xs = omega arith
count-take q (suc n) [] = refl
count-take q (suc n) (x ∷ xs) = ground (arith, count-take q n xs)

module _ (gmail : Gmail) (q : String → Bool) where
  count-fetch_each :
      (ids : List String) (mails : List Mail)
      → fetch_each gmail ids ≡ replied mails
      → count (by_id q) mails + count q (unfetched gmail ids) ≡ count q ids
  unfolding fetch_each
  count-fetch_each [] mails h =
      let same : [] ≡ mails = ground arith in
      let zero_left : count (by_id q) mails ≡ 0 = ap (count (by_id q)) (sym same) in
      omega (arith, zero_left)
  count-fetch_each (id ∷ ids) mails h = elim (Reply-cases (gmail.message id)) [
    | inl away ↦ absurd (ground arith)
    | inr (inl broke) ↦ absurd (ground arith)
    | inr (inr (inl (code, missing))) ↦
        let later : fetch_each gmail ids ≡ replied mails = ground arith in
        let left : unfetched gmail (id ∷ ids) ≡ id ∷ unfetched gmail ids =
          rw (unfetched, missing) refl in
        ground (arith, ap (count q) left, count-fetch_each ids mails later)
    | inr (inr (inr (c, there))) ↦
        let left : unfetched gmail (id ∷ ids) ≡ unfetched gmail ids = rw (unfetched, there) refl in
        let one : Mail = record {
          id = id;
          thread = c.thread;
          participated = none;
          text = c.text;
        } in
        let chain : (fetch_each gmail ids >>= (λ mails. replied (one ∷ mails))) ≡ replied mails =
          sym (rw (fetch_each, there) refl) ∙ h in
        let (rest, later, last) = chain_replied (fetch_each gmail ids) _ mails chain in
        let same : one ∷ rest ≡ mails = ground arith in
        ground
          (arith, ap (count q) left, ap (count (by_id q)) same, count-fetch_each ids rest later)
  ]

  annotate_one-id : (m m' : Mail) → annotate_one gmail m ≡ replied m' → m'.id ≡ m.id
  annotate_one-id m m' h = elim (Bool-cases (given m.thread)) [
    | inr alone ↦ ground arith
    | inl threaded ↦ elim (Reply-cases (gmail.thread (or_text m.thread ""))) [
      | inl away ↦ absurd (ground arith)
      | inr (inl broke) ↦ absurd (ground arith)
      | inr (inr (inl (code, missing))) ↦ ground arith
      | inr (inr (inr (ms, there))) ↦ ground arith
    ]
  ]

  count-annotate :
      (mails mails' : List Mail)
      → annotate gmail mails ≡ replied mails'
      → count (by_id q) mails' ≡ count (by_id q) mails
  unfolding annotate
  count-annotate [] mails' h =
      let same : [] ≡ mails' = ground arith in ap (count (by_id q)) (sym same)
  count-annotate (m ∷ mails) mails' h =
      let (one, first, next) = chain_replied (annotate_one gmail m) _ mails' h in
      let (rest, later, last) = chain_replied (annotate gmail mails) _ mails' next in
      let same : one ∷ rest ≡ mails' = ground arith in
      ground (
        arith,
        ap (count (by_id q)) same,
        ap q (annotate_one-id m one first),
        count-annotate mails rest later,
      )

newest_given :
    (p : HistoryPage) (latest : String)
    → str_eq latest "" ≡ false
    → str_eq (newest p latest) "" ≡ false
newest_given p latest has = elim (Option-cases p.history_id) [
  | inl missing ↦ rw missing has
  | inr (id, there) ↦ elim (Bool-cases (str_eq id "")) [
    | inl empty ↦ rw (there, empty) has
    | inr full ↦ rw (there, full) full
  ]
]

pub payload_of : {p p' : Payload} → replied p ≡ replied p' → p ≡ p'
payload_of h = ground arith

pub listing_of : {l l' : Listing} → replied l ≡ replied l' → l ≡ l'
listing_of h = ground arith

-- A listing from a cursor names a last history id.
pub latest_given :
    (pages : Pages) (latest : String) (l : Listing)
    → str_eq latest "" ≡ false
    → read_history pages latest ≡ replied l
    → str_eq l.latest "" ≡ false
unfolding read_history
latest_given (ends reply) latest l has h =
    let (p, there, last) = chain_replied reply _ l h in
    ap (λ (x : Listing). str_eq x.latest "") (sym (listing_of last)) ∙ newest_given p latest has
latest_given (more p pages) latest l has h =
    let (l', there, last) = chain_replied (read_history pages (newest p latest)) _ l h in
    ap (λ (x : Listing). str_eq x.latest "") (sym (listing_of last))
    ∙ latest_given pages (newest p latest) l' (newest_given p latest has) there

pub history_list_stale :
    (pages : Pages) (last : String)
    → history_list pages last ≡ replied none
    → read_history pages last ≡ http_error 404
unfolding history_list
history_list_stale pages last h = elim (Reply-cases (read_history pages last)) [
  | inl away ↦ absurd (ground arith)
  | inr (inl broke) ↦ absurd (ground arith)
  | inr (inr (inl (code, failed))) ↦ elim (Bool-cases (code == 404)) [
    | inl gone ↦ let same : code ≡ 404 = ground arith in failed ∙ ap (λ c. http_error c) same
    | inr other ↦ absurd (ground arith)
  ]
  | inr (inr (inr (l, there))) ↦ absurd (ground arith)
]

-- What `history_list` makes of a listing.
abbrev pub distinct : Listing → Listing
distinct l = record l { added = from_keys l.added; sent = from_keys l.sent }

pub history_list_listed :
    (pages : Pages) (last : String) (l : Listing)
    → history_list pages last ≡ replied (some l)
    → (l' : Listing) × (read_history pages last ≡ replied l') × (l ≡ distinct l')
unfolding history_list
history_list_listed pages last l h = elim (Reply-cases (read_history pages last)) [
  | inl away ↦ absurd (ground arith)
  | inr (inl broke) ↦ absurd (ground arith)
  | inr (inr (inl (code, failed))) ↦ elim (Bool-cases (code == 404)) [
    | inl gone ↦ absurd (ground arith)
    | inr other ↦ absurd (ground arith)
  ]
  | inr (inr (inr (l', there))) ↦ (l', there, ground arith)
]

-- The listed ids that a fetch does not bring: those after the fortieth, and those that an HttpError
-- kept from being fetched.
abbrev pub missed : Gmail → List String → List String
missed gmail ids = beyond 40 ids ++ unfetched gmail (take 40 ids)

pub count-fetch_listed :
    (gmail : Gmail) (q : String → Bool) (l : Listing) (p : Payload)
    → fetch_listed gmail l ≡ replied p
    → (count (by_id q) p.emails + count q (missed gmail l.added) ≡ count q l.added)
      × (p.history_id ≡ some l.latest)
      × (p.stale ≡ false)
unfolding fetch_listed
count-fetch_listed gmail q l p h =
    let (found, fetched, one) = chain_replied (fetch_ids gmail l.added) _ p h in
    let (emails, noted, two) = chain_replied (annotate gmail found) _ p one in
    let (sent, fetched', three) = chain_replied (fetch_ids gmail l.sent) _ p two in
    let made : Payload = record {
      emails = emails;
      sent = sent;
      history_id = some l.latest;
      stale = false;
    } in
    let same : made ≡ p = payload_of three in
    (
      omega (
        arith,
        ap (λ (x : Payload). count (by_id q) x.emails) same,
        count-annotate gmail q found emails noted,
        count-fetch_each gmail q (take max_emails l.added) found fetched,
        count-take q max_emails l.added,
        count-append q (beyond max_emails l.added) (unfetched gmail (take max_emails l.added)),
      ),
      ap (λ (x : Payload). x.history_id) (sym same),
      ap (λ (x : Payload). x.stale) (sym same),
    )
