-- ===== src/Session/Signed.antt =====
-- What a signed value opens to: what was signed, under a live key, and for one purpose.
use text.Mathlib.TextLemmas.{
  append_assoc, cons-append, append_cancel_right, append-ne-nil_of_right_ne-nil,
}
use Prim.Native.Char.{code}
use Prim.Native.String
use email_summary.Prelude.{
  ℕ, ◌+◌, ◌≤◌, String, ◌≡◌, refl, sym, ap, ◌∙◌, true, false, not, some, List, [], ◌∷◌, ◌++◌, str_eq,
  eq_iff, arith, ltb, ◌==◌, inl, inr, Bool-cases, Option-cases,
}
use email_summary.Prelude.Split.{
  split, join, is_free, split-free, split-append, join-split, split_first, join-append,
}
use email_summary.Prelude.Decimal.{show, read, read-show, show-all_chars}
use email_summary.Session.{
  Crypto, Ring, key_for, colon, payload, mac_of, signed, pair_of, last_two, Fields, fields_of,
  check_sig, open_fields, open_signed,
}

last_two-append : (xs : List String) (a b : String) → last_two (xs ++ a ∷ b ∷ []) ≡ some (xs, a, b)
last_two-append [] a b = refl
last_two-append (x ∷ xs) a b = rw (last_two-append xs a b) refl

pair_of_parts :
    (x : String) (l xs : List String) (a b : String)
    → pair_of x l ≡ some (xs, a, b)
    → x ∷ l ≡ xs ++ a ∷ b ∷ []
pair_of_parts x [] xs a b h = cc
pair_of_parts x (y ∷ []) xs a b h = ground arith
pair_of_parts x (y ∷ z ∷ l) xs a b h = cc

last_two_parts :
    (l xs : List String) (a b : String) → last_two l ≡ some (xs, a, b) → l ≡ xs ++ a ∷ b ∷ []
last_two_parts [] xs a b h = cc
last_two_parts (x ∷ l) xs a b h = elim (Option-cases (last_two l)) [
  | inl short ↦ pair_of_parts x l xs a b (ground arith)
  | inr ((ys, c, d), there) ↦ let ih = last_two_parts l ys c d there in ground arith
]

fields_of-parts :
    (kid v stamp sig : String) (vs : List String)
    → fields_of (kid ∷ (v ∷ vs) ++ stamp ∷ sig ∷ [])
      ≡ some (record { kid = kid; value = join ":" (v ∷ vs); stamp = stamp; sig = sig })
fields_of-parts kid v stamp sig vs = rw (fields_of, last_two-append (v ∷ vs) stamp sig) refl

-- The text that the fields stand for.
abbrev wire : Fields → String
wire f = colon f.kid (colon f.value (colon f.stamp f.sig))

fields_of-wire :
    (f : Fields)
    → is_free ":" f.kid ≡ true
    → is_free ":" f.stamp ≡ true
    → is_free ":" f.sig ≡ true
    → fields_of (split ":" (wire f)) ≡ some f
fields_of-wire f k s g =
    let (v, vs, first) = split_first ":" f.value in
    let whole : join ":" (v ∷ vs) ≡ f.value = ap (join ":") (sym first) ∙ join-split ":" f.value in
    rw
      (
        split-append ":" f.kid (colon f.value (colon f.stamp f.sig)),
        split-append ":" f.value (colon f.stamp f.sig),
        split-append ":" f.stamp f.sig,
        split-free ":" f.kid k,
        split-free ":" f.stamp s,
        split-free ":" f.sig g,
        first,
      )
      (fields_of-parts f.kid v f.stamp f.sig vs ∙ ap (λ s. some (record f { value = s })) whole)

fields_of_wire :
    (parts : List String) (raw : String) (f : Fields)
    → join ":" parts ≡ raw
    → fields_of parts ≡ some f
    → raw ≡ wire f
unfolding join
fields_of_wire [] raw f j h = cc
fields_of_wire (kid ∷ rest) raw f j h = elim (Option-cases (last_two rest)) [
  | inl short ↦ absurd (ground arith)
  | inr (([], a, b), there) ↦ absurd (ground arith)
  | inr ((v ∷ vs, a, b), there) ↦
      let rest' = last_two_parts rest (v ∷ vs) a b there in
      let same : f ≡ record { kid = kid; value = join ":" (v ∷ vs); stamp = a; sig = b } =
        ground arith in
      rw same (
        sym j
        ∙ ap (λ r. join ":" (kid ∷ r)) rest'
        ∙ join-append ":" kid [] v (vs ++ a ∷ b ∷ [])
        ∙ ap (colon kid) (join-append ":" v vs a (b ∷ [])))
]

fields_of_parts : (raw : String) (f : Fields) → fields_of (split ":" raw) ≡ some f → raw ≡ wire f
fields_of_parts raw f h = fields_of_wire (split ":" raw) raw f (join-split ":" raw) h

colon_assoc : (a b c : String) → colon (colon a b) c ≡ colon a (colon b c)
colon_assoc a b c =
    append_assoc a (String.◌∷◌ ":" b) (String.◌∷◌ ":" c)
    ∙ ap (λ s. String.◌++◌ a s) (cons-append ":" b (String.◌∷◌ ":" c))

pub signed-wire :
    (crypto : Crypto) (ring : Ring) (purpose value : String) (iat : ℕ)
    → signed crypto ring purpose value iat
      ≡ wire (record {
        kid = ring.kid;
        value = value;
        stamp = show iat;
        sig = mac_of crypto ring.key purpose (payload ring.kid value iat);
      })
unfolding signed
signed-wire crypto ring purpose value iat =
    colon_assoc ring.kid (colon value (show iat))
      (mac_of crypto ring.key purpose (payload ring.kid value iat))
    ∙ ap (colon ring.kid)
        (colon_assoc value (show iat) (mac_of crypto ring.key purpose (payload ring.kid value iat)))

show-is_free : (n : ℕ) → is_free ":" (show n) ≡ true
show-is_free n = show-all_chars (λ c. not (code c == code ":")) n (λ c d. ground arith)

pub colon-is_not_empty : (a b : String) → str_eq (colon a b) "" ≡ false
colon-is_not_empty a b = elim (Bool-cases (str_eq (colon a b) "")) [
  | inl empty ↦ absurd (
      append-ne-nil_of_right_ne-nil a {t = String.◌∷◌ ":" b} (λ e. cc)
        ((eq_iff (colon a b) "").0 empty))
  | inr full ↦ full
]

pub str_eq_self : (s : String) → str_eq s s ≡ true
str_eq_self s = (eq_iff s s).1 refl

-- What was signed opens, until it is too old, under every ring that still holds the key.
pub open_signed-signed :
    (crypto : Crypto) (ring ring' : Ring) (purpose value : String) (iat now ttl : ℕ)
    → ((key message : String) → is_free ":" (crypto.mac key message) ≡ true)
    → is_free ":" ring.kid ≡ true
    → key_for ring' ring.kid ≡ some ring.key
    → now ≤ iat + ttl
    → open_signed crypto ring' now purpose (signed crypto ring purpose value iat) ttl ≡ some value
unfolding open_signed open_fields check_sig
open_signed-signed crypto ring ring' purpose value iat now ttl hex plain held fresh =
    let mac = mac_of crypto ring.key purpose (payload ring.kid value iat) in
    let f : Fields = record { kid = ring.kid; value = value; stamp = show iat; sig = mac } in
    let fields : fields_of (split ":" (signed crypto ring purpose value iat)) ≡ some f =
      ap (λ s. fields_of (split ":" s)) (signed-wire crypto ring purpose value iat)
      ∙ fields_of-wire f plain (show-is_free iat)
          (hex ring.key (colon purpose (payload ring.kid value iat))) in
    let in_time : ltb (iat + ttl) now ≡ false = ground arith in
    rw
      (
        ap (λ s. str_eq s "") (signed-wire crypto ring purpose value iat),
        colon-is_not_empty ring.kid (colon value (colon (show iat) mac)),
        fields,
        open_fields,
        read-show iat,
      )
      (rw (in_time, check_sig, held, str_eq_self mac) refl)

open_parts :
    (crypto : Crypto) (ring : Ring) (now : ℕ) (purpose raw value : String) (ttl : ℕ)
    → open_signed crypto ring now purpose raw ttl ≡ some value
    → (f : Fields) × (key : String) × (iat : ℕ) × (fields_of (split ":" raw) ≡ some f)
      × (key_for ring f.kid ≡ some key)
      × (read f.stamp ≡ some iat)
      × (now ≤ iat + ttl)
      × (f.sig ≡ mac_of crypto key purpose (payload f.kid f.value iat))
      × (f.value ≡ value)
unfolding open_signed open_fields check_sig
open_parts crypto ring now purpose raw value ttl h =
    elim (Option-cases (fields_of (split ":" raw))) [
      | inl malformed ↦ absurd (ground arith)
      | inr (f, fields) ↦ elim (Option-cases (read f.stamp)) [
        | inl unread ↦ absurd (ground arith)
        | inr (iat, stamp) ↦ elim (Option-cases (key_for ring f.kid)) [
          | inl unknown ↦ absurd (ground arith)
          | inr (key, held) ↦ (
            f,
            key,
            iat,
            fields,
            held,
            stamp,
            ground arith,
            ground (arith, eq_iff f.sig (mac_of crypto key purpose (payload f.kid f.value iat))),
            ground arith,
          )
        ]
      ]
    ]

-- A value that opens has the four fields on the wire; the kid names a live key, the signature is
-- that key's for the purpose, the kid, the value and the time, and the time is not too old.
pub open_signed_sound :
    (crypto : Crypto) (ring : Ring) (now : ℕ) (purpose raw value : String) (ttl : ℕ)
    → open_signed crypto ring now purpose raw ttl ≡ some value
    → (kid : String) × (key : String) × (stamp : String) × (iat : ℕ) × (key_for ring kid ≡ some key)
      × (read stamp ≡ some iat)
      × (now ≤ iat + ttl)
      × (raw
          ≡ colon kid
              (colon value (colon stamp (mac_of crypto key purpose (payload kid value iat)))))
open_signed_sound crypto ring now purpose raw value ttl h =
    let (f, key, iat, fields, held, stamp, fresh, sig, same) =
      open_parts crypto ring now purpose raw value ttl h in
    (
      f.kid,
      key,
      f.stamp,
      iat,
      held,
      stamp,
      fresh,
      fields_of_parts raw f fields
          ∙ ap (λ g. colon f.kid (colon f.value (colon f.stamp g))) sig
          ∙ ap
              (λ v.
                colon f.kid
                  (colon v (colon f.stamp (mac_of crypto key purpose (payload f.kid v iat)))))
              same,
    )

-- Where the signature tells messages apart, a value that opens for two purposes opens for one: what
-- was signed for a session is not accepted as a form token or as a state.
pub open_signed_one_purpose :
    (crypto : Crypto) (ring : Ring) (now now' : ℕ) (p q raw v w : String) (ttl ttl' : ℕ)
    → ((key message message' : String)
        → crypto.mac key message ≡ crypto.mac key message'
        → message ≡ message')
    → open_signed crypto ring now p raw ttl ≡ some v
    → open_signed crypto ring now' q raw ttl' ≡ some w
    → p ≡ q
open_signed_one_purpose crypto ring now now' p q raw v w ttl ttl' inj h h' =
    let (f, key, iat, fields, held, stamp, fresh, sig, same) =
      open_parts crypto ring now p raw v ttl h in
    let (f', key', iat', fields', held', stamp', fresh', sig', same') =
      open_parts crypto ring now' q raw w ttl' h' in
    let one : f' ≡ f = ground arith in
    let one_key : key' ≡ key = ground (arith, ap (λ (x : Fields). key_for ring x.kid) one) in
    let one_time : iat' ≡ iat = ground (arith, ap (λ (x : Fields). read x.stamp) one) in
    let message = payload f.kid f.value iat in
    let as_one : mac_of crypto key' q (payload f'.kid f'.value iat') ≡ mac_of crypto key q message =
      cc (one, one_key, one_time) in
    append_cancel_right p q (String.◌∷◌ ":" message) (
      inj key (colon p message) (colon q message)
        (sym sig ∙ ap (λ (x : Fields). x.sig) (sym one) ∙ sig' ∙ as_one))
