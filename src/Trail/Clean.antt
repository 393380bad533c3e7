-- ===== src/Trail/Clean.antt =====
-- What a row can hold: names from closed sets and short tokens, and no text of a user.
use email_summary.Prelude.{
  ℕ, ◌-◌, ◌≤◌, String, ◌≡◌, refl, sym, ◌∙◌, subst, ◌+◌, Bool, true, not, ◌&&◌, Option, none, some,
  List, [], ◌∷◌, str_eq, arith, leb, ltb, All, All-select_keeps, length, inl, inr, Bool-cases,
  Option-cases,
}
use email_summary.Prelude.Sets.{is_member}
use email_summary.Prelude.Split.{join}
use email_summary.Trail.{
  TrailRow, Trail, Origin, insert_event, detail_string, all_tokens, max_detail_tokens, or_none,
  actions, is_token, record_event, prune_before, maybe_prune, retention_seconds, prune_interval,
}
use email_summary.Trail.Retained.{Step, write, pass, step, run}

-- A row of a known action, with a token for its outcome and at most twelve for its detail.
abbrev pub IsClean : TrailRow → Type 0
IsClean e =
    (is_member e.action actions ≡ true)
    × (is_token e.outcome ≡ true)
    × ((tokens : List String) × (e.detail ≡ or_none (join "," tokens))
        × (all_tokens tokens ≡ true)
        × (length tokens ≤ max_detail_tokens))

maybe_prune-IsClean :
    (now : ℕ) (trail : Trail)
    → All IsClean trail.events
    → All IsClean (maybe_prune now trail).1.events
unfolding maybe_prune prune_before
maybe_prune-IsClean now trail clean =
    elim (Bool-cases (ltb now (trail.last_prune + prune_interval))) [
      | inl soon ↦ rw (maybe_prune, soon) clean
      | inr due ↦
          rw (maybe_prune, due, prune_before)
            (All-select_keeps IsClean (λ e. not (ltb e.time (now - retention_seconds))) trail.events
              clean)
    ]

some_injective : (a b : Option String) → some a ≡ some b → a ≡ b
some_injective a b h = ground arith

kept_trail : (a b : Trail) → some a ≡ some b → a ≡ b
kept_trail a b h = ground arith

both_hold : (a b c : Bool) → (a && b && c) ≡ true → (b ≡ true) × (c ≡ true)
both_hold a b c h = (ground arith, ground arith)

record_event-none :
    (account action outcome : String) (detail : List String) (origin : Origin) (now : ℕ)
    (trail : Trail)
    → detail_string detail ≡ none
    → record_event account action outcome detail origin now trail ≡ none
unfolding record_event
record_event-none account action outcome detail origin now trail h = rw (record_event, h) refl

detail_string-some :
    (tokens : List String) (text : Option String)
    → detail_string tokens ≡ some text
    → (text ≡ or_none (join "," tokens))
      × (all_tokens tokens ≡ true)
      × (length tokens ≤ max_detail_tokens)
unfolding detail_string
detail_string-some tokens text h =
    elim (Bool-cases (leb (length tokens) max_detail_tokens && all_tokens tokens)) [
      | inr bad ↦
          let ends : detail_string tokens ≡ none = rw (detail_string, bad) refl in
          absurd (ground (arith, sym ends ∙ h))
      | inl good ↦
          let ends : detail_string tokens ≡ some (or_none (join "," tokens)) =
            rw (detail_string, good) refl in
          (
            some_injective text (or_none (join "," tokens)) (sym h ∙ ends),
            ground arith,
            ground arith,
          )
    ]

record_event-IsClean :
    (account action outcome : String) (detail : List String) (origin : Origin) (now : ℕ)
    (trail after : Trail)
    → All IsClean trail.events
    → record_event account action outcome detail origin now trail ≡ some after
    → All IsClean after.events
unfolding record_event
record_event-IsClean account action outcome detail origin now trail after clean h =
    elim (Option-cases (detail_string detail)) [
      | inl bad ↦ absurd (
          ground
            (arith, sym (record_event-none account action outcome detail origin now trail bad) ∙ h))
      | inr (text, good) ↦
          let row : TrailRow = record {
            time = now;
            account = account;
            action = action;
            outcome = outcome;
            detail = text;
            source_ip = origin.source_ip;
            user_agent = origin.user_agent;
          } in
          elim (Bool-cases
            (not (str_eq account "") && is_member action actions && is_token outcome)) [
              | inr bad ↦
                  let ends : record_event account action outcome detail origin now trail ≡ none =
                    rw (record_event, good, bad) refl in
                  absurd (ground (arith, sym ends ∙ h))
              | inl fits ↦
                  let ends : record_event account action outcome detail origin now trail
                      ≡ some (maybe_prune now (insert_event row trail)).1 =
                    rw (record_event, good, fits) refl in
                  let (known, token) =
                    both_hold (not (str_eq account "")) (is_member action actions)
                      (is_token outcome) fits in
                  let (joined, tokens, few) = detail_string-some detail text good in
                  let fresh : IsClean row = (known, token, (detail, joined, tokens, few)) in
                  subst (λ (t : Trail). All IsClean t.events)
                    (kept_trail (maybe_prune now (insert_event row trail)).1 after (sym ends ∙ h))
                    (maybe_prune-IsClean now (insert_event row trail) (fresh, clean))
            ]
    ]

step-IsClean :
    (s : Step) (trail : Trail) → All IsClean trail.events → All IsClean (step s trail).events
unfolding step
step-IsClean (pass now) trail clean = maybe_prune-IsClean now trail clean
step-IsClean (write account action outcome detail origin now) trail clean =
    elim (Option-cases (record_event account action outcome detail origin now trail)) [
      | inl asserts ↦ rw (step, asserts) clean
      | inr (after, writes) ↦
          rw (step, writes)
            (record_event-IsClean account action outcome detail origin now trail after clean writes)
    ]

-- Whatever is written and pruned, every row has a known action, a short token for its outcome, and no
-- other detail than at most twelve such tokens, if that was so before.
pub run-IsClean :
    (steps : List Step) (trail : Trail)
    → All IsClean trail.events
    → All IsClean (run steps trail).events
unfolding run
run-IsClean [] trail clean = clean
run-IsClean (s ∷ steps) trail clean = run-IsClean steps (step s trail) (step-IsClean s trail clean)
