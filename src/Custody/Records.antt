-- ===== src/Custody/Records.antt =====
-- The record on disk, and what is sealed under a data key.
use email_summary.Prelude.{
  ℕ, zero, suc, ◌+◌, ◌≤◌, String, ◌≡◌, refl, sym, ap, ◌↔◌, true, false, some, List, [], ◌∷◌, ◌++◌,
  str_eq, arith, leb, ◌==◌, take, length,
}
use email_summary.Custody.{
  Outside, done, encode_record, decode_record, drop, key_len, nonce_len, tag_len,
}
use email_summary.Custody.Files.{encrypt, decrypt, aad}

empty_outer :
    (blob : List ℕ) (version : ℕ)
    → decode_record blob ≡ some (version, [])
    → encode_record version [] ≡ some blob
unfolding decode_record
empty_outer [] version h = cc
empty_outer (a ∷ []) version h = cc
empty_outer (a ∷ b ∷ []) version h = cc
empty_outer (a ∷ b ∷ c ∷ []) version h = cc
empty_outer (a ∷ b ∷ c ∷ d ∷ []) version h = cc
empty_outer (a ∷ b ∷ c ∷ d ∷ e ∷ []) version h = cc
empty_outer (a ∷ b ∷ c ∷ d ∷ e ∷ f ∷ []) version h = cc
empty_outer (a ∷ b ∷ c ∷ d ∷ e ∷ f ∷ g ∷ rest) version h = absurd (ground arith)

decoded_record :
    (blob : List ℕ) (version x : ℕ) (outer : List ℕ)
    → version ≤ 255
    → decode_record blob ≡ some (version, x ∷ outer)
    → encode_record version (x ∷ outer) ≡ some blob
unfolding decode_record encode_record
decoded_record [] version x outer fits h = cc
decoded_record (a ∷ []) version x outer fits h = cc
decoded_record (a ∷ b ∷ []) version x outer fits h = cc
decoded_record (a ∷ b ∷ c ∷ []) version x outer fits h = cc
decoded_record (a ∷ b ∷ c ∷ d ∷ []) version x outer fits h = cc
decoded_record (a ∷ b ∷ c ∷ d ∷ e ∷ []) version x outer fits h = cc
decoded_record (a ∷ b ∷ c ∷ d ∷ e ∷ f ∷ []) version x outer fits h = cc
decoded_record (a ∷ b ∷ c ∷ d ∷ e ∷ f ∷ g ∷ rest) version x outer fits h =
    let byte : leb version 255 ≡ true = ground arith in ground arith

-- A blob decodes to a version that fits a byte and an outer ciphertext exactly when it is what these
-- encode to.
pub decode_record_iff :
    (blob outer : List ℕ) (version : ℕ)
    → version ≤ 255
    → ((decode_record blob ≡ some (version, outer)) ↔ (encode_record version outer ≡ some blob))
unfolding decode_record encode_record
decode_record_iff blob [] version fits = (empty_outer blob version, (λ h. cc))
decode_record_iff blob (b ∷ outer) version fits = (
  decoded_record blob version b outer fits,
  (λ h.
      let byte : leb version 255 ≡ true = ground arith in
      let same : 76 ∷ 76 ∷ 68 ∷ 75 ∷ 1 ∷ version ∷ b ∷ outer ≡ blob = ground arith in
      rw (sym same) refl),
)

take-append : (xs ys : List ℕ) (n : ℕ) → length xs ≡ n → take n (xs ++ ys) ≡ xs
take-append [] ys zero h = refl
take-append [] ys (suc n) h = absurd (omega arith)
take-append (x ∷ xs) ys zero h = absurd (omega arith)
take-append (x ∷ xs) ys (suc n) h = ap (λ l. x ∷ l) (take-append xs ys n (omega arith))

drop-append : (xs ys : List ℕ) (n : ℕ) → length xs ≡ n → drop n (xs ++ ys) ≡ ys
drop-append [] ys zero h = refl
drop-append [] ys (suc n) h = absurd (omega arith)
drop-append (x ∷ xs) ys zero h = absurd (omega arith)
drop-append (x ∷ xs) ys (suc n) h = drop-append xs ys n (omega arith)

length-append : (xs ys : List ℕ) → length (xs ++ ys) ≡ length xs + length ys
length-append [] ys = omega arith
length-append (x ∷ xs) ys = omega (arith, length-append xs ys)

-- What is sealed under a key opens under it, for the account and the file that it was sealed for.
pub decrypt-encrypt :
    (out : Outside) (dek nonce bytes blob : List ℕ) (handle name : String)
    → ((key nonce bytes : List ℕ) (bound : String)
        → out.aead_decrypt key nonce (out.aead_encrypt key nonce bytes bound) bound ≡ some bytes)
    → ((key nonce bytes : List ℕ) (bound : String)
        → length (out.aead_encrypt key nonce bytes bound) ≡ length bytes + tag_len)
    → length nonce ≡ nonce_len
    → 1 ≤ length bytes
    → encrypt out dek handle name nonce bytes ≡ some blob
    → decrypt out dek handle name blob ≡ done bytes
unfolding encrypt decrypt
decrypt-encrypt out dek nonce bytes blob handle name opens sized n given h =
    let sealed = out.aead_encrypt dek nonce bytes (aad handle name) in
    let key : (length dek == key_len) ≡ true = ground arith in
    let named : str_eq name "" ≡ false = ground arith in
    let same : nonce ++ sealed ≡ blob = ground arith in
    let long : leb (length (nonce ++ sealed)) (nonce_len + tag_len) ≡ false =
      ground (arith, length-append nonce sealed, sized dek nonce bytes (aad handle name)) in
    rw
      (
        sym same,
        key,
        named,
        long,
        take-append nonce sealed nonce_len n,
        drop-append nonce sealed nonce_len n,
        opens dek nonce bytes (aad handle name),
      )
      refl
