-- ===== src/Custody/Opened.antt =====
-- What the steps towards a data key leave on the shelf.
use email_summary.Prelude.{
  ℕ, ◌+◌, String, ◌⊎◌, ◌≡◌, refl, sym, ap, ◌∙◌, true, not, ◌&&◌, ◌||◌, Option, none, some, List, [],
  ◌∷◌, arith, str_eq, inl, inr, Bool-cases, Option-cases,
}
use email_summary.Accounts.Store.{given, or_text}
use email_summary.Accounts.Register.{is_handle}
use email_summary.Custody.{
  Outside, Shelf, Warm, KeyFile, CustodyError, Done, ended, done, Op, give, fail, continue, ◌>>=◌,
  custody, assertion, invalid_account, Call, unwrap_call, key_of, without_key, load_record, warm_of,
  without_warm, keep_warm, require_handle, require_request, ask, open_dek, or_fail, open_key, Owner,
  identify, is_id, open_and_keep, set_warm, decode_record, dek_ttl,
}

Done-cases {ℓ} :
    {A : Type ℓ} (d : Done A) → ((e : CustodyError) × (d ≡ ended e)) ⊎ ((a : A) × (d ≡ done a))
Done-cases (ended e) = inl (e, refl)
Done-cases (done a) = inr (a, refl)

-- What a chain that ended well went through.
pub chain_done :
    {A B : Type 0} (m : Op A) (next : A → Op B) (s s' : Shelf) (b : B)
    → (m >>= next) s ≡ (done b, s')
    → (a : A) × ((m s).0 ≡ done a) × (next a (m s).1 ≡ (done b, s'))
chain_done m next s s' b h = elim (Done-cases (m s).0) [
  | inl (e, bad) ↦ absurd (ground arith)
  | inr (a, good) ↦ (a, good, sym (ap (λ d. continue d next (m s).1) good) ∙ h)
]

pub warm_of-without : (uid : String) (ws : List Warm) → warm_of uid (without_warm uid ws) ≡ none
warm_of-without uid [] = refl
warm_of-without uid (w ∷ ws) = ground (arith, warm_of-without uid ws)

pub key_of-without : (uid : String) (ks : List KeyFile) → key_of uid (without_key uid ks) ≡ none
key_of-without uid [] = refl
key_of-without uid (k ∷ ks) = ground (arith, key_of-without uid ks)

abbrev pub known_as : String → String → Op (String × String)
known_as uid handle s = (done (uid, handle), s)

same_pair : (a b c d : String) (s s' : Shelf) → known_as a c s ≡ known_as b d s' → (a ≡ b) × (c ≡ d)
same_pair a b c d s s' h = ground arith

-- An owner is identified alike on every shelf, and with a handle.
pub identify_same :
    (owner : Owner) (uid handle : String) (s s' : Shelf)
    → identify owner s ≡ known_as uid handle s'
    → (is_handle handle ≡ true) × ((r : Shelf) → identify owner r ≡ known_as uid handle r)
unfolding identify
identify_same owner uid handle s s' h =
    elim (Bool-cases (not (given owner.id) || not (given owner.handle))) [
      | inl missing ↦
          let ends : identify owner s ≡ fail assertion s = rw (identify, missing) refl in
          absurd (ground (arith, sym ends ∙ h))
      | inr named ↦
          elim (Bool-cases (is_id (or_text owner.id "") && is_handle (or_text owner.handle ""))) [
            | inr bad ↦
                let ends : identify owner s ≡ fail invalid_account s =
                  rw (identify, named, bad) refl in
                absurd (ground (arith, sym ends ∙ h))
            | inl good ↦
                let all : (r : Shelf)
                    → identify owner r
                      ≡ known_as (or_text owner.id "") (or_text owner.handle "") r =
                  λ r. rw (identify, named, good) refl in
                let pair : (or_text owner.id "" ≡ uid) × (or_text owner.handle "" ≡ handle) =
                  same_pair (or_text owner.id "") uid (or_text owner.handle "") handle s s'
                    (sym (all s) ∙ h) in
                (
                  sym (ap is_handle pair.1) ∙ ground arith,
                  (λ r.
                      all r
                      ∙ ap (λ u. known_as u (or_text owner.handle "") r) pair.0
                      ∙ ap (λ h. known_as uid h r) pair.1),
                )
          ]
    ]

-- A step that reads leaves the shelf as it is.
pub require_handle-done :
    (handle : String) (u : Unit {0}) (s : Shelf)
    → (require_handle handle s).0 ≡ done u
    → (require_handle handle s).1 ≡ s
require_handle-done handle u s h = elim (Bool-cases (is_handle handle)) [
  | inl good ↦ rw (require_handle, good) refl
  | inr bad ↦ rw (require_handle, bad) refl
]

pub require_request-done :
    (htm htu : String) (u : Unit {0}) (s : Shelf)
    → (require_request htm htu s).0 ≡ done u
    → (require_request htm htu s).1 ≡ s
require_request-done htm htu u s h = elim (Bool-cases (str_eq htm "" || str_eq htu "")) [
  | inl empty ↦ rw (require_request, empty) refl
  | inr asks ↦ rw (require_request, asks) refl
]

pub load_record_same : (uid : String) (s : Shelf) → (load_record uid s).1 ≡ s
unfolding load_record
load_record_same uid s = elim (Option-cases (key_of uid s.keys)) [
  | inl missing ↦ rw (load_record, missing) refl
  | inr (blob, there) ↦ elim (Option-cases (decode_record blob)) [
    | inl bad ↦ rw (load_record, there, bad) refl
    | inr (p, good) ↦ rw (load_record, there, good) refl
  ]
]

pub ask_writes :
    {A : Type 0} (call : Call) (reply : List Call → Option A) (s : Shelf)
    → (ask call reply s).1 ≡ record s { calls = call ∷ s.calls }
ask_writes call reply s = elim (Option-cases (reply s.calls)) [
  | inl refused ↦ rw (ask, refused) refl
  | inr (a, answered) ↦ rw (ask, answered) refl
]

pub or_fail_same :
    {A : Type 0} (e : CustodyError) (o : Option A) (s : Shelf) → (or_fail e o s).1 ≡ s
or_fail_same e none s = refl
or_fail_same e (some a) s = refl

-- What opening a key leaves on the shelf.
open_key_asks :
    (out : Outside) (uid handle : String) (dek : List ℕ) (s s' : Shelf)
    → open_key out uid handle s ≡ (done dek, s')
    → s' ≡ record s { calls = unwrap_call handle ∷ s.calls }
unfolding open_key load_record
open_key_asks out uid handle dek s s' h =
    let (u, handled, one) = chain_done (require_handle handle) _ s s' dek h in
    let (key, loaded, two) =
      chain_done (load_record uid) _ (require_handle handle s).1 s' dek one in
    let r = (load_record uid (require_handle handle s).1).1 in
    let (inner, asked, three) =
      chain_done (ask (unwrap_call handle) (λ calls. out.unwrap calls handle key.1))
        (λ inner. or_fail custody (open_dek out handle inner key.0)) r s' dek two in
    sym (ap (λ (p : Done (List ℕ) × Shelf). p.1) three)
    ∙ or_fail_same custody (open_dek out handle inner key.0)
        (ask (unwrap_call handle) (λ calls. out.unwrap calls handle key.1) r).1
    ∙ ask_writes (unwrap_call handle) (λ calls. out.unwrap calls handle key.1) r
    ∙ ap (λ (r : Shelf). record r { calls = unwrap_call handle ∷ r.calls })
        (load_record_same uid (require_handle handle s).1 ∙ require_handle-done handle u s handled)

pub open_and_keep-done :
    (out : Outside) (now : ℕ) (uid handle : String) (dek : List ℕ) (s s' : Shelf)
    → open_and_keep out now uid handle s ≡ (done dek, s')
    → s' ≡ keep_warm uid dek (now + dek_ttl) (record s { calls = unwrap_call handle ∷ s.calls })
open_and_keep-done out now uid handle dek s s' h =
    let (key, opened, kept) =
      chain_done (open_key out uid handle)
        (λ dek. set_warm uid dek (now + dek_ttl) >>= (λ u. give dek)) s s' dek h in
    let whole : open_key out uid handle s ≡ (done key, (open_key out uid handle s).1) =
      ap (λ d. (d, (open_key out uid handle s).1)) opened in
    let asked = open_key_asks out uid handle key s (open_key out uid handle s).1 whole in
    let same : key ≡ dek = ground (arith, ap (λ (p : Done (List ℕ) × Shelf). p.0) kept) in
    sym (ap (λ (p : Done (List ℕ) × Shelf). p.1) kept)
    ∙ ap (keep_warm uid key (now + dek_ttl)) asked
    ∙ ap (λ k. keep_warm uid k (now + dek_ttl) (record s { calls = unwrap_call handle ∷ s.calls }))
        same
