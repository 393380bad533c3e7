-- ===== src/Cosigner/Service/Sweep.antt =====
-- The accounts of a quarter of an hour, and those that the sweep rule counts.
pub mod Steps
use email_summary.Prelude.{
  ℕ, ◌+◌, ◌-◌, ◌≤◌, ◌<◌, String, ◌≡◌, refl, sym, ◌∙◌, ◌≢◌, ◌⊎◌, Bool, true, false, ◌&&◌, ◌||◌,
  Option, none, some, List, [], ◌∷◌, map, arith, str_eq, leb, ltb, if◌then◌else◌, inl, inr,
  Bool-cases, select, length, some_pass, some_pass_mono, some_pass-count, count, eq_iff, All,
  All-select, some_pass-select,
}
use email_summary.Prelude.Sets.{
  is_member, update, add, HasNoRepeats, update-HasNoRepeats, member-update, length-le_of_subset,
}
use email_summary.Cosigner.Audit.{
  Action, wrap, unwrap_and_sign, unwrap, sign_dpop, rewrap, action_eq, is_allow, Row, Db, since_all,
  several, stored_uid, insert_row, granted_since, distinct_uids_since,
}
use email_summary.Cosigner.Audit.Counts.{in_clause, granted_since-eq-in_clause}
use email_summary.Cosigner.Audit.Distinct.{
  names_uid, member-select, counted_uids, length-counted_uids, counted_uids-HasNoRepeats,
  member-counted_uids,
}
use email_summary.Cosigner.Policy.{
  Switches, Limits, Clock, Request, authorize, rate_refusal, sweep_refusal, distinct_window_seconds,
}
use email_summary.Cosigner.Policy.Outcomes.{
  authorize_cases, authorize_allows_iff, allowed_row, denied_row,
}
use email_summary.Cosigner.Retention.{prune, kept}
use email_summary.Cosigner.Service.{Step, ask, age, step, run, releases, IsOrdered}
use email_summary.Cosigner.Service.Ceilings.{unwrap_room}

-- The allowed rows of a quarter of an hour that release key material.
abbrev pub in_quarter : ℕ → Row → Bool
in_quarter s r =
    is_allow r.decision && leb s r.ts && leb r.ts (s + distinct_window_seconds) && releases r.action

-- The accounts of those rows, each once.
abbrev pub quarter_uids : ℕ → List Row → List String
quarter_uids s rows = update [] (map (λ r. r.uid) (select (in_quarter s) rows))

abbrev pub SweepHolds : Limits → Db → Type 0
SweepHolds l db = (s : ℕ) → length (quarter_uids s db.requests) ≤ l.distinct

abbrev pub AllBefore : ℕ → Db → Type 0
AllBefore t db = All (λ r. r.ts ≤ t) db.requests

pub member-quarter_uids :
    (s : ℕ) (u : String) (rows : List Row)
    → is_member u (quarter_uids s rows) ≡ some_pass (λ r. in_quarter s r && str_eq u r.uid) rows
member-quarter_uids s u rows =
    member-update u [] (map (λ r. r.uid) (select (in_quarter s) rows))
    ∙ member-select (in_quarter s) u rows

pub quarter_uids-HasNoRepeats : (s : ℕ) (rows : List Row) → HasNoRepeats (quarter_uids s rows)
quarter_uids-HasNoRepeats s rows =
    update-HasNoRepeats [] (map (λ r. r.uid) (select (in_quarter s) rows)) tt

some_pass_mono_below :
    (t : ℕ) (p q : Row → Bool) (rows : List Row)
    → All (λ r. r.ts ≤ t) rows
    → ((r : Row) → r.ts ≤ t → p r ≡ true → q r ≡ true)
    → some_pass p rows ≡ true
    → some_pass q rows ≡ true
some_pass_mono_below t p q [] b h e = e
some_pass_mono_below t p q (r ∷ rows) b h e =
    ground (arith, h r b.0, some_pass_mono_below t p q rows b.1 h)

module _ (l : Limits) (now : ℕ) (db : Db) where
  abbrev since : ℕ
  since = now - distinct_window_seconds

  abbrev counted : List String
  counted = counted_uids db since unwrap_and_sign (unwrap ∷ [])

  pub sweep_passes :
      (uid : Option String)
      → sweep_refusal l now uid db ≡ none
      → (0 < granted_since db since (several unwrap_and_sign (unwrap ∷ [])) uid)
        ⊎ (distinct_uids_since db since unwrap_and_sign (unwrap ∷ []) < l.distinct)
  unfolding sweep_refusal
  sweep_passes uid h = ground arith

  -- An account with a row of the window is in the set that the rule counts.
  pub counted_of_granted :
      (u : String)
      → 0 < granted_since db since (several unwrap_and_sign (unwrap ∷ [])) (some u)
      → is_member u counted ≡ true
  counted_of_granted u h =
      member-counted_uids db since unwrap_and_sign (unwrap ∷ []) u
      ∙ some_pass_mono (in_clause since (some u) (unwrap_and_sign ∷ unwrap ∷ []))
          (names_uid since (unwrap_and_sign ∷ unwrap ∷ []) u) db.requests
          (λ r e. ground (arith, eq_iff u r.uid, eq_iff r.uid u))
          (some_pass-count _ db.requests (
            omega
              (arith, granted_since-eq-in_clause db since (some u) unwrap_and_sign (unwrap ∷ []))))

  releases_iff :
      (r : Row)
      → releases r.action ≡ true
      → (action_eq r.action unwrap_and_sign || action_eq r.action unwrap) ≡ true
  releases_iff r h = ground arith

  -- The accounts of a quarter that ends after the limiter's clock are among the counted ones.
  pub quarter-subset-counted :
      (s : ℕ) (u : String)
      → now ≤ s + distinct_window_seconds
      → is_member u (quarter_uids s db.requests) ≡ true
      → is_member u counted ≡ true
  quarter-subset-counted s u late h =
      member-counted_uids db since unwrap_and_sign (unwrap ∷ []) u
      ∙ some_pass_mono (λ r. in_quarter s r && str_eq u r.uid)
          (names_uid since (unwrap_and_sign ∷ unwrap ∷ []) u) db.requests
          (λ r e. ground (arith, releases_iff r)) (sym (member-quarter_uids s u db.requests) ∙ h)

  -- No row is newer than the limiter's clock, so the counted accounts are those of one quarter.
  pub counted-subset-quarter :
      (u : String)
      → AllBefore now db
      → is_member u counted ≡ true
      → is_member u (quarter_uids since db.requests) ≡ true
  counted-subset-quarter u past h =
      member-quarter_uids since u db.requests
      ∙ some_pass_mono_below now (names_uid since (unwrap_and_sign ∷ unwrap ∷ []) u)
          (λ r. in_quarter since r && str_eq u r.uid) db.requests past (λ r young e. ground arith)
          (sym (member-counted_uids db since unwrap_and_sign (unwrap ∷ []) u) ∙ h)
