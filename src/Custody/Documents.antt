-- ===== src/Custody/Documents.antt =====
-- A document that was written is read back.
use email_summary.Prelude.{
  ℕ, ◌+◌, ◌≤◌, ◌<◌, String, ◌≡◌, refl, sym, ap, ◌∙◌, some, List, length, eq_refl, arith, inl, inr,
  Option-cases,
}
use email_summary.Custody.{
  Outside, Random, Shelf, done, give, ◌>>=◌, assertion, or_fail, Owner, identify, dek_for, warm_of,
  nonce_len, tag_len,
}
use email_summary.Custody.Files.{
  find_document, put_document, encrypt, decrypt, write_encrypted, write_keyed, read_encrypted,
  ensure_key,
}
use email_summary.Custody.Records.{decrypt-encrypt}
use email_summary.Custody.Opened.{chain_done, known_as, identify_same}
use email_summary.Custody.Keeping.{dek_for-Holds, dek_for_warm}

-- What reading gives, with the key and the blob at hand.
read_with :
    (out : Outside) (now : ℕ) (owner : Owner) (uid handle name : String) (dek blob bytes : List ℕ)
    (s : Shelf)
    → identify owner s ≡ known_as uid handle s
    → find_document uid name s.documents ≡ some blob
    → dek_for out now owner s ≡ (done dek, s)
    → decrypt out dek handle name blob ≡ done bytes
    → read_encrypted out now owner name s ≡ (done (some bytes), s)
unfolding read_encrypted
read_with out now owner uid handle name dek blob bytes s known there key opens =
    rw (read_encrypted, known, there, key, opens) refl

-- The same, from where there is a key.
written_is_read :
    (out : Outside) (random : Random) (now : ℕ) (owner : Owner) (name uid handle : String)
    (bytes : List ℕ) (s s' : Shelf)
    → ((key nonce bytes : List ℕ) (bound : String)
        → out.aead_decrypt key nonce (out.aead_encrypt key nonce bytes bound) bound ≡ some bytes)
    → ((key nonce bytes : List ℕ) (bound : String)
        → length (out.aead_encrypt key nonce bytes bound) ≡ length bytes + tag_len)
    → length random.nonce ≡ nonce_len
    → 1 ≤ length bytes
    → ((r : Shelf) → identify owner r ≡ known_as uid handle r)
    → write_keyed out random now owner name bytes uid handle s ≡ (done tt, s')
    → (until : ℕ) × (now < until)
      × ((later : ℕ)
          → later < until
          → read_encrypted out later owner name s' ≡ (done (some bytes), s'))
written_is_read out random now owner name uid handle bytes s s' opens sized n given all h =
    let (dek, had, one) =
      chain_done (dek_for out now owner)
        (λ dek.
          or_fail assertion (encrypt out dek handle name random.nonce bytes)
          >>= (λ blob. put_document uid name blob))
        s s' tt h in
    let s2 = (dek_for out now owner s).1 in
    let whole : dek_for out now owner s ≡ (done dek, s2) = ap (λ d. (d, s2)) had in
    let (w, there, same_key, early, calls) =
      dek_for-Holds out now owner uid handle dek s s2 (all s) whole in
    elim (Option-cases (encrypt out dek handle name random.nonce bytes)) [
      | inl bad ↦ absurd (ground arith)
      | inr (blob, sealed) ↦
          let put : s' ≡ (put_document uid name blob s2).1 = ground arith in
          let found : find_document uid name s'.documents ≡ some blob =
            ap (λ (r : Shelf). find_document uid name r.documents) put
            ∙ rw (eq_refl uid, eq_refl name) refl in
          let kept : warm_of uid s'.cache ≡ some w =
            ap (λ (r : Shelf). warm_of uid r.cache) put ∙ there in
          let plain =
            decrypt-encrypt out dek random.nonce bytes blob handle name opens sized n given
              sealed in
          (
            w.until,
            early,
            (λ later in_time.
                read_with out later owner uid handle name dek blob bytes s' (all s') found
                  (dek_for_warm out later owner uid handle s' w (all s') kept in_time
                    ∙ ap (λ k. give k s') same_key)
                  plain),
          )
    ]

-- A text that was written is read back, with no call of the co-signer, until the time of its key is up.
pub write_then_read :
    (out : Outside) (random : Random) (now : ℕ) (owner : Owner) (name uid handle : String)
    (bytes : List ℕ) (s s' : Shelf)
    → ((key nonce bytes : List ℕ) (bound : String)
        → out.aead_decrypt key nonce (out.aead_encrypt key nonce bytes bound) bound ≡ some bytes)
    → ((key nonce bytes : List ℕ) (bound : String)
        → length (out.aead_encrypt key nonce bytes bound) ≡ length bytes + tag_len)
    → length random.nonce ≡ nonce_len
    → 1 ≤ length bytes
    → identify owner s ≡ known_as uid handle s
    → write_encrypted out random now owner name bytes s ≡ (done tt, s')
    → (until : ℕ) × (now < until)
      × ((later : ℕ)
          → later < until
          → read_encrypted out later owner name s' ≡ (done (some bytes), s'))
unfolding write_encrypted
write_then_read out random now owner name uid handle bytes s s' opens sized n given known h =
    let (handled, all) = identify_same owner uid handle s s known in
    let after = write_keyed out random now owner name bytes uid handle in
    let inside : write_encrypted out random now owner name bytes s
        ≡ (ensure_key out random now owner uid handle >>= (λ made. after)) s =
      rw (write_encrypted, known) refl in
    let (u, made, written) =
      chain_done (ensure_key out random now owner uid handle) (λ made. after) s s' tt
        (sym inside ∙ h) in
    written_is_read out random now owner name uid handle bytes
      (ensure_key out random now owner uid handle s).1 s' opens sized n given all written
