-- ===== src/Custody/Keeping.antt =====
-- When a data key is opened, kept and gone.
use email_summary.Prelude.{
  ℕ, ◌+◌, ◌<◌, String, ◌⊎◌, ◌≡◌, refl, sym, ap, ◌∙◌, true, Option, none, some, List, ◌∷◌, eq_refl,
  arith, ltb, inl, inr, Bool-cases, Option-cases,
}
use email_summary.Accounts.Register.{is_handle}
use email_summary.Custody.{
  Outside, Shelf, Warm, Done, ended, done, give, ◌>>=◌, no_data_key, custody, Call, unwrap_call,
  sign_call, key_of, load_record, warm_of, destroy, require_handle, require_request, ask, open_dek,
  or_fail, open_key, release_for_refresh, Owner, identify, open_and_keep, dek_of, dek_for, dek_ttl,
}
use email_summary.Custody.Opened.{
  chain_done, warm_of-without, key_of-without, known_as, identify_same, require_handle-done,
  require_request-done, load_record_same, ask_writes, or_fail_same, open_and_keep-done,
}

-- A key that is kept is given out without a call.
pub dek_for_warm :
    (out : Outside) (now : ℕ) (owner : Owner) (uid handle : String) (s : Shelf) (w : Warm)
    → identify owner s ≡ known_as uid handle s
    → warm_of uid s.cache ≡ some w
    → now < w.until
    → dek_for out now owner s ≡ (done w.dek, s)
unfolding dek_for dek_of
dek_for_warm out now owner uid handle s w known there early =
    let in_time : ltb now w.until ≡ true = ground arith in
    rw (dek_for, known, dek_of, there, in_time) refl

-- Without a record on the disk and with no kept key in time, a request fails at once.
dek_for_gone :
    (out : Outside) (now : ℕ) (owner : Owner) (uid handle : String) (s : Shelf)
    → is_handle handle ≡ true
    → identify owner s ≡ known_as uid handle s
    → key_of uid s.keys ≡ none
    → (dek_for out now owner s ≡ (ended no_data_key, s))
      ⊎ ((w : Warm) × (warm_of uid s.cache ≡ some w)
          × (now < w.until)
          × (dek_for out now owner s ≡ (done w.dek, s)))
unfolding dek_for dek_of open_key load_record
dek_for_gone out now owner uid handle s handled known gone =
    let cold : open_and_keep out now uid handle s ≡ (ended no_data_key, s) =
      rw (open_and_keep, open_key, handled, load_record, gone) refl in
    elim (Option-cases (warm_of uid s.cache)) [
      | inl missing ↦ inl (rw (dek_for, known, dek_of, missing) cold)
      | inr (w, there) ↦ elim (Bool-cases (ltb now w.until)) [
        | inl early ↦ inr (
          w,
          there,
          ground arith,
          dek_for_warm out now owner uid handle s w known there (ground arith),
        )
        | inr late ↦ inl (rw (dek_for, known, dek_of, there, late) cold)
      ]
    ]

-- The disk as it is, beside the memory of another process.
abbrev pub beside : Shelf → List Warm → Shelf
beside s kept = record s { cache = kept }

-- Once its key is destroyed, an account's data key is not to be had from the disk: in the process that
-- destroyed it a request fails without a call of the co-signer; in any other, whatever that one keeps in
-- memory, it fails so too or is answered with the key that is kept there, until the time of that is up,
-- which it does not put off; and a refresh fails in each, without a call.
pub destroy_shreds :
    (out : Outside) (now : ℕ) (owner : Owner) (uid handle : String) (s : Shelf) (kept : List Warm)
    (htm htu : String) (server_nonce : Option String)
    → identify owner s ≡ known_as uid handle s
    → let here = (destroy uid s).1 in
      let there = beside here kept in
      (dek_for out now owner here ≡ (ended no_data_key, here))
      × ((dek_for out now owner there ≡ (ended no_data_key, there))
          ⊎ ((w : Warm) × (warm_of uid kept ≡ some w)
              × (now < w.until)
              × (dek_for out now owner there ≡ (done w.dek, there))))
      × (release_for_refresh out uid handle htm htu server_nonce there ≡ (ended no_data_key, there))
unfolding dek_for dek_of open_key load_record destroy identify release_for_refresh
destroy_shreds out now owner uid handle s kept htm htu server_nonce known =
    let (handled, all) = identify_same owner uid handle s s known in
    let here = (destroy uid s).1 in
    let gone : key_of uid here.keys ≡ none = key_of-without uid s.keys in
    (
      rw
          (
            dek_for,
            all here,
            dek_of,
            warm_of-without uid s.cache,
            open_and_keep,
            open_key,
            handled,
            load_record,
            gone,
          )
          refl,
      dek_for_gone out now owner uid handle (beside here kept) handled (all (beside here kept))
          gone,
      rw (release_for_refresh, handled, load_record, gone) refl,
    )

-- A refresh costs a call of the co-signer, also where the key is kept, and keeps no key.
pub release_for_refresh_asks :
    (out : Outside) (uid handle htm htu : String) (server_nonce : Option String) (dek : List ℕ)
    (proof : String) (s s' : Shelf)
    → release_for_refresh out uid handle htm htu server_nonce s ≡ (done (dek, proof), s')
    → s' ≡ record s { calls = sign_call handle ∷ s.calls }
unfolding release_for_refresh
release_for_refresh_asks out uid handle htm htu server_nonce dek proof s s' h =
    let (u, handled, one) = chain_done (require_handle handle) _ s s' _ h in
    let (key, loaded, two) = chain_done (load_record uid) _ (require_handle handle s).1 s' _ one in
    let l = (load_record uid (require_handle handle s).1).1 in
    let (u', asks, two') = chain_done (require_request htm htu) _ l s' _ two in
    let r = (require_request htm htu l).1 in
    let reply : List Call → Option (List ℕ × String) =
      λ calls. out.unwrap_and_sign calls handle key.1 htm htu server_nonce in
    let (answer, asked, three) =
      chain_done (ask (sign_call handle) reply)
        (λ answer.
          or_fail custody (open_dek out handle answer.0 key.0) >>= (λ dek. give (dek, answer.1)))
        r s' _ two' in
    let after = (ask (sign_call handle) reply r).1 in
    let (k, opened, four) =
      chain_done (or_fail custody (open_dek out handle answer.0 key.0))
        (λ dek. give (dek, answer.1)) after s' _ three in
    sym (ap (λ (p : Done (List ℕ × String) × Shelf). p.1) four)
    ∙ or_fail_same custody (open_dek out handle answer.0 key.0) after
    ∙ ask_writes (sign_call handle) reply r
    ∙ ap (λ (r : Shelf). record r { calls = sign_call handle ∷ r.calls })
        (require_request-done htm htu u' l asks
          ∙ load_record_same uid (require_handle handle s).1
          ∙ require_handle-done handle u s handled)

-- The kept key after a request, its time, and the calls it took.
abbrev pub Holds : ℕ → String → String → List ℕ → Shelf → Shelf → Type 0
Holds now uid handle dek s s' =
    (w : Warm) × (warm_of uid s'.cache ≡ some w)
    × (w.dek ≡ dek)
    × (now < w.until)
    × ((s'.calls ≡ s.calls)
        ⊎ ((w.until ≡ now + dek_ttl) × (s'.calls ≡ unwrap_call handle ∷ s.calls)))

open_and_keep-Holds :
    (out : Outside) (now : ℕ) (uid handle : String) (dek : List ℕ) (s s' : Shelf)
    → open_and_keep out now uid handle s ≡ (done dek, s')
    → Holds now uid handle dek s s'
open_and_keep-Holds out now uid handle dek s s' h =
    let shape = open_and_keep-done out now uid handle dek s s' h in
    let w : Warm = record { uid = uid; dek = dek; until = now + dek_ttl } in
    let there : warm_of uid s'.cache ≡ some w =
      ap (λ (r : Shelf). warm_of uid r.cache) shape ∙ rw (eq_refl uid) refl in
    (w, there, refl, omega arith, inr (refl, ap (λ (r : Shelf). r.calls) shape))

pub dek_for-Holds :
    (out : Outside) (now : ℕ) (owner : Owner) (uid handle : String) (dek : List ℕ) (s s' : Shelf)
    → identify owner s ≡ known_as uid handle s
    → dek_for out now owner s ≡ (done dek, s')
    → Holds now uid handle dek s s'
unfolding dek_for dek_of
dek_for-Holds out now owner uid handle dek s s' known h =
    let inside : dek_for out now owner s ≡ dek_of out now uid handle s = rw (dek_for, known) refl in
    let opened : dek_of out now uid handle s ≡ (done dek, s') = sym inside ∙ h in
    elim (Option-cases (warm_of uid s.cache)) [
      | inl missing ↦
          let cold : dek_of out now uid handle s ≡ open_and_keep out now uid handle s =
            rw (dek_of, missing) refl in
          open_and_keep-Holds out now uid handle dek s s' (sym cold ∙ opened)
      | inr (w, there) ↦ elim (Bool-cases (ltb now w.until)) [
        | inr late ↦
            let cold : dek_of out now uid handle s ≡ open_and_keep out now uid handle s =
              rw (dek_of, there, late) refl in
            open_and_keep-Holds out now uid handle dek s s' (sym cold ∙ opened)
        | inl early ↦
            let warm : dek_of out now uid handle s ≡ give w.dek s =
              rw (dek_of, there, early) refl in
            let ends = sym warm ∙ opened in
            let same : s ≡ s' = ap (λ (p : Done (List ℕ) × Shelf). p.1) ends in
            (
              w,
              sym (ap (λ (r : Shelf). warm_of uid r.cache) same) ∙ there,
              ground arith,
              ground arith,
              inl (ap (λ (r : Shelf). r.calls) (sym same)),
            )
      ]
    ]

-- A key that was had stays to be had until its time is up, without a call; getting it took no call, or
-- it took one and its time is five minutes.
pub dek_for_keeps :
    (out : Outside) (now : ℕ) (owner : Owner) (uid handle : String) (dek : List ℕ) (s s' : Shelf)
    → identify owner s ≡ known_as uid handle s
    → dek_for out now owner s ≡ (done dek, s')
    → (until : ℕ) × (now < until)
      × ((later : ℕ) → later < until → dek_for out later owner s' ≡ (done dek, s'))
      × ((s'.calls ≡ s.calls)
          ⊎ ((until ≡ now + dek_ttl) × (s'.calls ≡ unwrap_call handle ∷ s.calls)))
dek_for_keeps out now owner uid handle dek s s' known h =
    let (handled, all) = identify_same owner uid handle s s known in
    let (w, there, one, early, calls) = dek_for-Holds out now owner uid handle dek s s' known h in
    (
      w.until,
      early,
      (λ later in_time.
          dek_for_warm out later owner uid handle s' w (all s') there in_time
          ∙ ap (λ k. give k s') one),
      calls,
    )
