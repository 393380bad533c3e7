-- ===== src/Cosigner/Server/Releases.antt =====
-- To whom the endpoints answer with a key, an outer layer or a proof, and what is written for it.
use email_summary.Prelude.{
  ℕ, ◌+◌, ◌≤◌, String, ◌⊎◌, ◌≡◌, refl, sym, ap, subst, ◌∙◌, Bool, true, false, Option, some, List,
  [], ◌∷◌, arith, if◌then◌else◌, All, count, inl, inr, Bool-cases, Option-cases,
}
use email_summary.Cosigner.Audit.{Db, Row, is_allow}
use email_summary.Cosigner.Policy.{Verdict, Request, authorize}
use email_summary.Cosigner.Policy.Outcomes.{authorize_allows_iff, authorize_writes_one_row}
use email_summary.Attestation.{
  Allowlist, Libraries, QuoteVerdict, Mode, required, mode_of, has_no_rows,
}
use email_summary.Attestation.Client.{Stored, Setting, client_mode, verify_client}
use email_summary.Attestation.Trusted.{
  IsTrusted, IsTrusted-later, IsRecent, verify_client-IsTrusted,
}
use email_summary.Cosigner.Server.{
  Response, error, refused, Step, stop, go, Order, Post, Process, Box, client_cert, verdict_of,
  job_of, answer, handle_job, handle_cert, is_known, do_post, serve,
}

-- The response carries an outer layer, a key or a proof.
abbrev pub is_release : Response → Bool
is_release (error code) = false
is_release (refused refusal) = false
is_release _ = true

abbrev pub allowed_rows : Db → ℕ
allowed_rows log = count (λ (r : Row). is_allow r.decision) log.requests

Step-cases {ℓ} : {A : Type ℓ} (s : Step A) → ((code : ℕ) × (s ≡ stop code)) ⊎ ((a : A) × (s ≡ go a))
Step-cases (stop code) = inl (code, refl)
Step-cases (go a) = inr (a, refl)

-- How many rows a response needs.
abbrev pub cost : Response → ℕ
cost response = if is_release response then 1 else 0

module _ (box : Box) (post : Post) (verdict : Verdict) (log : Db) where
  answer_logs :
      (job : Order)
      → (is_release (answer box.limits post verdict job log).0 ≡ true → verdict.ok ≡ true)
        × (cost (answer box.limits post verdict job log).0 + allowed_rows log
            ≤ allowed_rows (answer box.limits post verdict job log).1)
  unfolding answer
  answer_logs job =
      let req : Request = record {
        uid = job.uid;
        action = job.action;
        verdict = verdict;
        precheck = job.precheck;
      } in
      let (r, written, ts, uid, action, allowed, reason) =
        authorize_writes_one_row post.switches box.limits post.clock req log in
      let iff = authorize_allows_iff post.switches box.limits post.clock req log in
      elim (Option-cases (authorize post.switches box.limits post.clock req log).0) [
        | inl passed ↦ ((λ released. (iff.0 passed).1), rw (answer, written, passed) (ground arith))
        | inr (f, stopped) ↦
            (rw (answer, stopped) (λ released. cc), rw (answer, written, stopped) (ground arith))
      ]

  handle_job_logs :
      (is_release (handle_job box post verdict log).0 ≡ true → verdict.ok ≡ true)
      × (cost (handle_job box post verdict log).0 + allowed_rows log
          ≤ allowed_rows (handle_job box post verdict log).1)
  unfolding handle_job
  handle_job_logs = elim (Step-cases (job_of box.wire box.keys post.endpoint post.body)) [
    | inl (code, stopped) ↦ rw (handle_job, stopped) ((λ released. cc), omega arith)
    | inr (job, asked) ↦ rw (handle_job, asked) (answer_logs job)
  ]

mode_of_provisioned :
    (lib : Libraries) (list : Allowlist) (override : Option String) (today : ℕ) (m : Mode)
    → has_no_rows list.measurements ≡ false
    → mode_of lib list override today ≡ some m
    → m ≡ required
unfolding mode_of
mode_of_provisioned lib list override today m rows h = ground arith

client_mode_provisioned :
    (lib : Libraries) (list : Allowlist) (at : Setting) (m : Mode)
    → has_no_rows list.measurements ≡ false
    → client_mode lib list at ≡ some m
    → m ≡ required
unfolding client_mode
client_mode_provisioned lib list at m rows h =
    elim (Option-cases (mode_of lib list at.override at.today)) [
      | inl bad ↦ absurd (ground arith)
      | inr (stated, there) ↦
          let same = mode_of_provisioned lib list at.override at.today stated rows there in
          let there' : mode_of lib list at.override at.today ≡ some required =
            there ∙ ap (λ x. some x) same in
          ground arith
    ]

-- The client's certificate is one whose quote passed all five checks, in this call or in one that was
-- seen and stored its verdict less than a day before.
abbrev pub FromEnclave : Box → List Setting → Post → Type 0
FromEnclave box seen post =
    (der : String) × (client_cert box.wire post.cert_header ≡ some der)
    × IsRecent box.libraries box.certificates box.allowlist seen post.setting
        (box.certificates.fingerprint_of der)

-- Each stored verdict that is ok was stored by a call that was seen, which found it so.
abbrev pub TrustsCache : Box → List Setting → Process → Type 0
TrustsCache box seen st = All (IsTrusted box.libraries box.certificates box.allowlist seen) st.cache

-- What one request leaves: a cache to trust, a release to the enclave alone, and its row.
abbrev IsSafe : Box → List Setting → Post → Process → Response × Process → Type 0
IsSafe box seen post st done =
    TrustsCache box (post.setting ∷ seen) done.1
    × (is_release done.0 ≡ true → FromEnclave box seen post)
    × (cost done.0 + allowed_rows st.log ≤ allowed_rows done.1.log)

module _ (box : Box) (seen : List Setting) (post : Post) (st : Process)
    (rows : has_no_rows box.allowlist.measurements ≡ false)
    (trusted : TrustsCache box seen st) where
  trusted_later : TrustsCache box (post.setting ∷ seen) st
  trusted_later =
      IsTrusted-later box.libraries box.certificates box.allowlist post.setting seen st.cache
        trusted

  returns_required :
      (v : QuoteVerdict) (cache : List Stored) (der : String)
      → verify_client box.libraries box.certificates box.allowlist post.setting der st.cache
        ≡ some (v, cache)
      → client_mode box.libraries box.allowlist post.setting ≡ some required
  unfolding verify_client
  returns_required v cache der h =
      elim (Option-cases (client_mode box.libraries box.allowlist post.setting)) [
        | inl raises ↦ absurd (ground arith)
        | inr (m, there) ↦
            there
            ∙ ap (λ x. some x)
                (client_mode_provisioned box.libraries box.allowlist post.setting m rows there)
      ]

  handle_cert-IsSafe :
      (der : String)
      → client_cert box.wire post.cert_header ≡ some der
      → IsSafe box seen post st (handle_cert box post der st)
  unfolding handle_cert
  handle_cert-IsSafe der shown =
      elim (Option-cases
        (verify_client box.libraries box.certificates box.allowlist post.setting der st.cache)) [
          | inl raises ↦ rw (handle_cert, raises) (trusted_later, (λ released. cc), omega arith)
          | inr ((v, cache), there) ↦
              let (sound, logged) = handle_job_logs box post (verdict_of box.wire v) st.log in
              let mode = returns_required v cache der there in
              let (trusted', authorized) =
                verify_client-IsTrusted box.libraries box.certificates box.allowlist seen
                  post.setting der st.cache cache v trusted mode there in
              rw (handle_cert, there)
                (trusted', (λ released. (der, shown, authorized (sound released))), logged)
        ]

  do_post-IsSafe : IsSafe box seen post st (do_post box post st)
  unfolding do_post
  do_post-IsSafe = elim (Option-cases (client_cert box.wire post.cert_header)) [
    | inl bad ↦ rw (do_post, bad) (trusted_later, (λ released. cc), omega arith)
    | inr (der, shown) ↦ elim (Bool-cases (is_known post.endpoint)) [
      | inl known ↦
          let same : do_post box post st ≡ handle_cert box post der st =
            rw (do_post, shown, known) refl in
          subst (IsSafe box seen post st) (sym same) (handle_cert-IsSafe der shown)
      | inr other ↦
          let same : do_post box post st ≡ (error 404, st) = rw (do_post, shown, other) refl in
          subst (IsSafe box seen post st) (sym same) (trusted_later, (λ released. cc), omega arith)
    ]
  ]

-- Each response that releases something answers a request of the enclave, where the settings are those
-- of the requests before the first one, and each request adds its own.
abbrev pub ReleasesToEnclave : Box → List Setting → List Post → List Response → Type 0
ReleasesToEnclave box seen (post ∷ posts) (response ∷ responses) =
    (is_release response ≡ true → FromEnclave box seen post)
    × ReleasesToEnclave box (post.setting ∷ seen) posts responses
ReleasesToEnclave box seen posts responses = Unit

-- With an allowlist that names an image, and from a cache whose ok verdicts were stored by requests that
-- were seen and found them so, as the empty one is without any: among any requests, each that gets an
-- outer layer, a key or a proof came with a certificate whose quote passed all five checks in that very
-- request, or in an earlier one that stored its verdict less than a day before; and the log has an
-- allowed row for each of them.
pub serve_releases :
    (box : Box) (seen : List Setting) (posts : List Post) (st : Process)
    → has_no_rows box.allowlist.measurements ≡ false
    → TrustsCache box seen st
    → ReleasesToEnclave box seen posts (serve box posts st).0
      × (count is_release (serve box posts st).0 + allowed_rows st.log
          ≤ allowed_rows (serve box posts st).1.log)
unfolding serve
serve_releases box seen [] st rows trusted = (tt, omega arith)
serve_releases box seen (post ∷ posts) st rows trusted =
    let (cache, released, logged) = do_post-IsSafe box seen post st rows trusted in
    let next = (do_post box post st).1 in
    let (later, counted) = serve_releases box (post.setting ∷ seen) posts next rows cache in
    ((released, later), ground arith)
