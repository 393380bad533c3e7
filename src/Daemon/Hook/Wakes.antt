-- ===== src/Daemon/Hook/Wakes.antt =====
-- Which pushes wake the daemon.
use email_summary.Prelude.{
  ℕ, ◌+◌, ◌≤◌, ◌<◌, String, ◌⊎◌, ◌≡◌, refl, sym, ap, subst, ◌∙◌, true, false, Option, none, some,
  List, [], ◌∷◌, str_eq, arith, leb, ltb, inl, inr, Bool-cases, Option-cases, List-cases,
}
use email_summary.Prelude.Split.{split}
use email_summary.Prelude.Text.{strip, lower}
use email_summary.Daemon.WakeQueue.{Woken, wake}
use email_summary.Daemon.Hook.{
  Claims, Decoded, rejected, not_claims, claims, Certs, Answered, Google, HookConfig, claims_pass,
  CertCache, certs_ttl_min, or_lifetime, number_in, partition_at, lifetime_in, cache_lifetime,
  refresh, tried, may_refetch, answer_certs, for_kid, check_token, bearer, Length, bad_length,
  negative, bytes, Push, body_of, route_push, read_and_route, max_body, HookState, handle_token,
  hook_post,
}

or_lifetime-min :
    (o : Option ℕ) (rest : ℕ) → certs_ttl_min ≤ rest → certs_ttl_min ≤ or_lifetime o rest
or_lifetime-min none rest h = h
or_lifetime-min (some n) rest h = ground arith

lifetime_in-min : (parts : List String) → certs_ttl_min ≤ lifetime_in parts
lifetime_in-min [] = omega arith
lifetime_in-min (part ∷ parts) =
    let ih = lifetime_in-min parts in
    elim (Bool-cases (str_eq (lower (partition_at (strip part)).0) "max-age")) [
      | inl named ↦
          rw named
            (or_lifetime-min (number_in (partition_at (strip part)).1) (lifetime_in parts) ih)
      | inr other ↦ rw other ih
    ]

refresh-fresh :
    (now : ℕ) (download : Option Answered) (cache fresh : CertCache)
    → refresh now download cache ≡ some fresh
    → now < fresh.expires
unfolding refresh cache_lifetime
refresh-fresh now none cache fresh h = cc
refresh-fresh now (some answer) cache fresh h = elim (List-cases answer.certs) [
  | inl empty ↦ absurd (ground arith)
  | inr (c, cs, there) ↦
      let long = lifetime_in-min (split "," answer.cache_control) in
      let expires : now + lifetime_in (split "," answer.cache_control) ≡ fresh.expires =
        ground arith in
      omega arith
]

answer_certs-same :
    (cache : CertCache) (certs : Certs) (cache' : CertCache)
    → answer_certs cache ≡ (some certs, cache')
    → (cache ≡ cache') × (cache.certs ≡ certs)
answer_certs-same cache certs cache' h = elim (List-cases cache.certs) [
  | inl empty ↦ absurd (ground arith)
  | inr (c, cs, there) ↦ (ground arith, ground arith)
]

abbrev nothing_from : CertCache → Option Certs × CertCache
nothing_from cache = (none, tried cache)

served_fresh :
    (now : ℕ) (cache cache' : CertCache) (certs : Certs)
    → now < cache.expires
    → answer_certs cache ≡ (some certs, cache')
    → (now < cache'.expires) × (cache'.certs ≡ certs)
served_fresh now cache cache' certs early h =
    let (same, served) = answer_certs-same cache certs cache' h in
    (
      subst (λ (c : CertCache). now < c.expires) same early,
      ap (λ (c : CertCache). c.certs) (sym same) ∙ served,
    )

-- The certificates that are served are not expired.
for_kid-fresh :
    (now : ℕ) (download : Option Answered) (kid : Option String) (cache cache' : CertCache)
    (certs : Certs)
    → for_kid now download kid cache ≡ (some certs, cache')
    → (now < cache'.expires) × (cache'.certs ≡ certs)
unfolding for_kid
for_kid-fresh now download kid cache cache' certs h = elim (Bool-cases (leb cache.expires now)) [
  | inl expired ↦ elim (Option-cases (refresh now download cache)) [
    | inl down ↦
        let ends : for_kid now download kid cache ≡ nothing_from cache =
          rw (for_kid, expired, down) refl in
        absurd (ground (arith, sym ends ∙ h))
    | inr (fresh, renewed) ↦
        let ends : for_kid now download kid cache ≡ answer_certs fresh =
          rw (for_kid, expired, renewed) refl in
        served_fresh now fresh cache' certs (refresh-fresh now download cache fresh renewed)
          (sym ends ∙ h)
  ]
  | inr valid ↦ elim (Bool-cases (may_refetch kid now cache)) [
    | inr known ↦
        let ends : for_kid now download kid cache ≡ answer_certs cache =
          rw (for_kid, valid, known) refl in
        served_fresh now cache cache' certs (ground arith) (sym ends ∙ h)
    | inl unknown ↦ elim (Option-cases (refresh now download cache)) [
      | inl down ↦
          let ends : for_kid now download kid cache ≡ answer_certs (tried cache) =
            rw (for_kid, valid, unknown, down) refl in
          served_fresh now (tried cache) cache' certs (ground arith) (sym ends ∙ h)
      | inr (fresh, renewed) ↦
          let ends : for_kid now download kid cache ≡ answer_certs fresh =
            rw (for_kid, valid, unknown, renewed) refl in
          served_fresh now fresh cache' certs (refresh-fresh now download cache fresh renewed)
            (sym ends ∙ h)
    ]
  ]
]

Decoded-cases :
    (d : Decoded) → (d ≡ rejected) ⊎ ((d ≡ not_claims) ⊎ ((c : Claims) × (d ≡ claims c)))
Decoded-cases rejected = inl refl
Decoded-cases not_claims = inr (inl refl)
Decoded-cases (claims c) = inr (inr (c, refl))

Length-cases : (l : Length) → (l ≡ bad_length) ⊎ ((l ≡ negative) ⊎ ((n : ℕ) × (l ≡ bytes n)))
Length-cases bad_length = inl refl
Length-cases negative = inr (inl refl)
Length-cases (bytes n) = inr (inr (n, refl))

check_token-passes :
    (google : Google) (config : HookConfig) (token : String) (certs : Option Certs) (c : Claims)
    → (check_token google config token certs).0 ≡ some c
    → (live : Certs) × (certs ≡ some live)
      × (google.decode token live ≡ claims c)
      × (claims_pass config c ≡ true)
unfolding check_token
check_token-passes google config token none c h = cc
check_token-passes google config token (some live) c h =
    elim (Decoded-cases (google.decode token live)) [
      | inl bad ↦ absurd (ground arith)
      | inr (inl other) ↦ absurd (ground arith)
      | inr (inr (d, there)) ↦ elim (Bool-cases (claims_pass config d)) [
        | inr fails ↦ absurd (ground arith)
        | inl passes ↦
            let same : d ≡ c = ground arith in
            (
              live,
              refl,
              there ∙ ap (λ x. claims x) same,
              ap (claims_pass config) (sym same) ∙ passes,
            )
      ]
    ]

-- The body, of a length within the limit, names the address that is woken.
abbrev pub NamesAddress : Google → Push → List Woken → List Woken → Type 0
NamesAddress google push spool spool' =
    (n : ℕ) × (email : String) × (push.length ≡ bytes n)
    × (n ≤ max_body)
    × (google.address_in (body_of n push) ≡ some email)
    × (str_eq email "" ≡ false)
    × (spool' ≡ wake email spool)

route_push-wakes :
    (google : Google) (body : String) (spool : List Woken)
    → ((route_push google body spool).1 ≡ spool)
      ⊎ ((email : String) × (google.address_in body ≡ some email)
          × (str_eq email "" ≡ false)
          × ((route_push google body spool).1 ≡ wake email spool))
unfolding route_push
route_push-wakes google body spool = elim (Option-cases (google.address_in body)) [
  | inl bad ↦ inl (rw (route_push, bad) refl)
  | inr (email, there) ↦ elim (Bool-cases (str_eq email "")) [
    | inl empty ↦ inl (rw (route_push, there, empty) refl)
    | inr full ↦ inr (email, there, full, rw (route_push, there, full) refl)
  ]
]

-- What routing a push leaves of the queue.
abbrev Routed : Google → Push → List Woken → List Woken → Type 0
Routed google push spool spool' = (spool' ≡ spool) ⊎ NamesAddress google push spool spool'

read_and_route-Routed :
    (google : Google) (push : Push) (spool : List Woken)
    → Routed google push spool (read_and_route google push spool).1
unfolding read_and_route
read_and_route-Routed google push spool = elim (Length-cases push.length) [
  | inl bad ↦ inl (rw (read_and_route, bad) refl)
  | inr (inl below) ↦ inl (rw (read_and_route, below) refl)
  | inr (inr (n, sized)) ↦ elim (Bool-cases (ltb max_body n)) [
    | inl large ↦ inl (rw (read_and_route, sized, large) refl)
    | inr fits ↦
        let within : n ≤ max_body = ground arith in
        let same : (read_and_route google push spool).1
            ≡ (route_push google (body_of n push) spool).1 =
          rw (read_and_route, sized, fits) refl in
        elim (route_push-wakes google (body_of n push) spool) [
          | inl kept ↦ inl (same ∙ kept)
          | inr (email, there, full, woken) ↦
              inr (n, email, sized, within, there, full, same ∙ woken)
        ]
  ]
]

-- A push changes the queue by nothing, or by one wake of the address that its own body names, where the
-- body's length is within the limit; and then its token has the claims of Google's push account for this
-- audience, decoded under the certificates of the cache, which are not expired.
pub hook_post_wakes :
    (google : Google) (config : HookConfig) (now : ℕ) (download : Option Answered) (push : Push)
    (st : HookState)
    → let after = (hook_post google config now download push st).1 in
      (after.spool ≡ st.spool)
      ⊎ (NamesAddress google push st.spool after.spool
          × (now < after.cache.expires)
          × ((token : String) × (c : Claims) × (bearer push.authorization ≡ some token)
              × (google.decode token after.cache.certs ≡ claims c)
              × (claims_pass config c ≡ true)))
unfolding hook_post handle_token
hook_post_wakes google config now download push st =
    elim (Option-cases (bearer push.authorization)) [
      | inl missing ↦ inl (rw (hook_post, missing) refl)
      | inr (token, shown) ↦ elim (Option-cases (google.decode_kid token)) [
        | inl bad ↦ inl (rw (hook_post, shown, bad) refl)
        | inr (kid, headed) ↦
            let served = for_kid now download kid st.cache in
            elim (Option-cases (check_token google config token served.0).0) [
              | inl refused ↦ inl (rw (hook_post, shown, headed, handle_token, refused) refl)
              | inr (c, passes) ↦
                  let (live, there, decoded, good) =
                    check_token-passes google config token served.0 c passes in
                  let (early, kept) =
                    for_kid-fresh now download kid st.cache served.1 live
                      (ap (λ o. (o, served.1)) there) in
                  let after : hook_post google config now download push st ≡ (
                    (read_and_route google push st.spool).0,
                    record { cache = served.1; spool = (read_and_route google push st.spool).1 },
                  ) =
                    rw (hook_post, shown, headed, handle_token, passes) refl in
                  rw after elim (read_and_route-Routed google push st.spool) [
                    | inl same ↦ inl same
                    | inr woken ↦ inr (
                      woken,
                      early,
                      (token, c, shown, ap (google.decode token) kept ∙ decoded, good),
                    )
                  ]
            ]
      ]
    ]
