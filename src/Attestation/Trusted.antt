-- ===== src/Attestation/Trusted.antt =====
-- Which certificates get a verdict that is ok.
use mathlib.Core.List.{Memᴰ}
use mathlib.Core.List.Memᴰ.{head, tail}
use email_summary.Prelude.{
  ℕ, ◌+◌, ◌<◌, String, ◌⊎◌, ◌≡◌, refl, sym, ap, subst, ◌∙◌, true, false, Option, none, some, List,
  [], ◌∷◌, str_eq, eq_iff, arith, leb, All, All-mono, inl, inr, Bool-cases, Option-cases,
}
use email_summary.Attestation.{got, Allowlist, Libraries, QuoteVerdict, required, verify}
use email_summary.Attestation.Checks.{Passes, verify_passes, Tried-cases}
use email_summary.Attestation.Client.{
  Stored, ttl_of, find_stored, cached, put_verdict, Cert, Certificates, report_data_for_cert,
  extract_quote, Setting, client_mode, keep, verify_cert, verify_required, verify_client,
  recheck_seconds,
}

-- In the call with the setting, a certificate with the fingerprint carried a quote, bound to that
-- certificate, that passed all five checks.
pub record IsAuthorized (lib : Libraries) (certs : Certificates) (list : Allowlist) (fp : String)
    (at : Setting) : Type 0 where
  der : String
  cert : Cert
  quote : String
  expected : List ℕ
  printed : certs.fingerprint_of der ≡ fp
  loads : certs.load_cert der ≡ got cert
  quoted : extract_quote list cert ≡ some (some quote)
  bound : report_data_for_cert list cert ≡ some expected
  passes : Passes lib list at.verified quote expected none

kept_verdict :
    (fp : String) (now : ℕ) (cache cache' : List Stored) (v : QuoteVerdict)
    (verdict : Option QuoteVerdict)
    → keep fp now cache verdict ≡ some (v, cache')
    → (verdict ≡ some v) × (cache' ≡ put_verdict fp v now cache)
kept_verdict fp now cache cache' v none h = cc
kept_verdict fp now cache cache' v (some w) h =
    let same : w ≡ v = ground arith in
    let stored : put_verdict fp w now cache ≡ cache' = ground arith in
    (ap (λ x. some x) same, sym stored ∙ ap (λ x. put_verdict fp x now cache) same)

module _ (lib : Libraries) (certs : Certificates) (list : Allowlist) where
  -- One of the calls that were seen stored a verdict on the fingerprint at the time, and found it
  -- authorized.
  abbrev pub WasAuthorized : List Setting → String → ℕ → Type 0
  WasAuthorized seen fp time =
      (at : Setting) × Memᴰ at seen × (at.stored ≡ time) × IsAuthorized lib certs list fp at

  -- A stored verdict that is ok was found so in a call that was seen.
  abbrev pub IsTrusted : List Setting → Stored → Type 0
  IsTrusted seen e = e.verdict.ok ≡ true → WasAuthorized seen e.subject e.time

  pub IsTrusted-later :
      (at : Setting) (seen : List Setting) (cache : List Stored)
      → All (IsTrusted seen) cache
      → All (IsTrusted (at ∷ seen)) cache
  IsTrusted-later at seen cache t =
      All-mono (IsTrusted seen) (IsTrusted (at ∷ seen)) cache
        (λ e before ok. let (s, one, time, good) = before ok in (s, tail one, time, good)) t

  find_stored-IsTrusted :
      (seen : List Setting) (fp : String) (cache : List Stored) (e : Stored)
      → All (IsTrusted seen) cache
      → find_stored fp cache ≡ some e
      → e.verdict.ok ≡ true
      → WasAuthorized seen fp e.time
  find_stored-IsTrusted seen fp [] e t h ok = cc
  find_stored-IsTrusted seen fp (s ∷ cache) e t h ok = elim (Bool-cases (str_eq s.subject fp)) [
    | inl here ↦
        let same : s ≡ e = ground arith in
        let subject : s.subject ≡ fp = (eq_iff s.subject fp).0 here in
        let there : WasAuthorized seen s.subject s.time = t.0 (ground arith) in
        subst (λ x. WasAuthorized seen x e.time) subject
          (subst (λ (x : Stored). WasAuthorized seen s.subject x.time) same there)
    | inr later ↦ find_stored-IsTrusted seen fp cache e t.1 (ground arith) ok
  ]

  -- The call itself found the fingerprint authorized, or one of those that were seen did, less than a
  -- day before the call asked.
  abbrev pub IsRecent : List Setting → Setting → String → Type 0
  IsRecent seen at fp =
      IsAuthorized lib certs list fp at
      ⊎ ((before : Setting) × Memᴰ before seen
          × IsAuthorized lib certs list fp before
          × (at.asked < before.stored + recheck_seconds))

  module _ (seen : List Setting) (at : Setting) where
    same_cache :
        (cache cache' : List Stored)
        → All (IsTrusted seen) cache
        → cache ≡ cache'
        → All (IsTrusted (at ∷ seen)) cache'
    same_cache cache cache' t same =
        subst (All (IsTrusted (at ∷ seen))) same (IsTrusted-later at seen cache t)

    verify_cert-IsTrusted :
        (der : String) (cert : Cert) (cache cache' : List Stored) (v : QuoteVerdict)
        → certs.load_cert der ≡ got cert
        → All (IsTrusted seen) cache
        → verify_cert lib list at (certs.fingerprint_of der) cert cache ≡ some (v, cache')
        → All (IsTrusted (at ∷ seen)) cache'
          × (v.ok ≡ true → IsAuthorized lib certs list (certs.fingerprint_of der) at)
    unfolding verify_cert put_verdict
    verify_cert-IsTrusted der cert cache cache' v loads t h =
        elim (Option-cases (extract_quote list cert)) [
          | inl bad ↦ absurd (ground arith)
          | inr (none, none_carried) ↦
              (same_cache cache cache' t (ground arith), (λ ok. absurd (ground arith)))
          | inr (some quote, quoted) ↦ elim (Bool-cases (str_eq quote "")) [
            | inl empty ↦ (same_cache cache cache' t (ground arith), (λ ok. absurd (ground arith)))
            | inr full ↦ elim (Option-cases (report_data_for_cert list cert)) [
              | inl bad ↦ absurd (ground arith)
              | inr (expected, bound) ↦
                  let fp = certs.fingerprint_of der in
                  let (w, verdict) =
                    kept_verdict fp at.stored cache cache' v
                      (verify lib list at.verified quote (some fp) expected none) (ground arith) in
                  let good : v.ok ≡ true → IsAuthorized lib certs list fp at = λ ok. record {
                    der = der;
                    cert = cert;
                    quote = quote;
                    expected = expected;
                    printed = refl;
                    loads = loads;
                    quoted = quoted;
                    bound = bound;
                    passes =
                        verify_passes lib list at.verified quote (some fp) expected none v w ok;
                  } in
                  (
                    subst (All (IsTrusted (at ∷ seen))) (sym verdict)
                        ((λ ok. (at, head refl, refl, good ok)), IsTrusted-later at seen cache t),
                    good,
                  )
            ]
          ]
        ]

    cached-IsTrusted :
        (fp : String) (cache : List Stored) (v : QuoteVerdict)
        → All (IsTrusted seen) cache
        → cached cache fp at.asked ≡ some v
        → v.ok ≡ true
        → IsRecent seen at fp
    unfolding cached
    cached-IsTrusted fp cache v t h ok = elim (Option-cases (find_stored fp cache)) [
      | inl missing ↦ absurd (ground arith)
      | inr (e, there) ↦
          let same : e.verdict ≡ v = ground arith in
          let fresh : leb (e.time + ttl_of e.verdict) at.asked ≡ false = ground arith in
          let e_ok : e.verdict.ok ≡ true = ap (λ (x : QuoteVerdict). x.ok) same ∙ ok in
          let (before, one, time, good) = find_stored-IsTrusted seen fp cache e t there e_ok in
          inr (before, one, good, ground arith)
    ]

    verify_required-IsTrusted :
        (der : String) (cache cache' : List Stored) (v : QuoteVerdict)
        → All (IsTrusted seen) cache
        → verify_required lib certs list at der cache ≡ some (v, cache')
        → All (IsTrusted (at ∷ seen)) cache'
          × (v.ok ≡ true → IsRecent seen at (certs.fingerprint_of der))
    unfolding verify_required
    verify_required-IsTrusted der cache cache' v t h =
        elim (Option-cases (cached cache (certs.fingerprint_of der) at.asked)) [
          | inr (w, hit) ↦
              let one : w ≡ v = ground arith in
              (
                same_cache cache cache' t (ground arith),
                cached-IsTrusted (certs.fingerprint_of der) cache v t (hit ∙ ap (λ x. some x) one),
              )
          | inl missed ↦ elim (Tried-cases (certs.load_cert der)) [
            | inl (error, bad) ↦
                (same_cache cache cache' t (ground arith), (λ ok. absurd (ground arith)))
            | inr (cert, loads) ↦
                let (trusted, authorized) =
                  verify_cert-IsTrusted der cert cache cache' v loads t (ground arith) in
                (trusted, (λ ok. inl (authorized ok)))
          ]
        ]

    pub verify_client-IsTrusted :
        (der : String) (cache cache' : List Stored) (v : QuoteVerdict)
        → All (IsTrusted seen) cache
        → client_mode lib list at ≡ some required
        → verify_client lib certs list at der cache ≡ some (v, cache')
        → All (IsTrusted (at ∷ seen)) cache'
          × (v.ok ≡ true → IsRecent seen at (certs.fingerprint_of der))
    unfolding verify_client
    verify_client-IsTrusted der cache cache' v t mode h = elim (Bool-cases (str_eq der "")) [
      | inl empty ↦ (same_cache cache cache' t (ground arith), (λ ok. absurd (ground arith)))
      | inr shown ↦ verify_required-IsTrusted der cache cache' v t (ground arith)
    ]
