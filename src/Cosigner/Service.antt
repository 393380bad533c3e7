-- ===== src/Cosigner/Service.antt =====
-- A life of the co-signer: requests and prunes in any order, each under the lock.
pub mod WrapOnce
pub mod Ceilings
pub mod Sweep
pub mod Covers
use email_summary.Prelude.{
  ℕ, ◌+◌, ◌≤◌, ◌≡◌, ◌≢◌, String, Bool, true, false, ◌&&◌, Option, none, some, List, [], ◌∷◌, str_eq,
  is_some, not, if◌then◌else◌,
}
use email_summary.Cosigner.Audit.{Action, wrap, unwrap_and_sign, unwrap, action_eq, Db}
use email_summary.Cosigner.Policy.{Switches, Limits, Clock, Request, authorize}
use email_summary.Cosigner.Retention.{prune}

pub data Step : Type 0 where
  ask : Switches → Clock → Request → Step
  age : ℕ → Step

pub step : Limits → Step → Db → Db
step l (ask s c req) db = (authorize s l c req db).1
step l (age now) db = (prune now db).1

pub run : Limits → List Step → Db → Db
unfolding step
run l [] db = db
run l (st ∷ steps) db = run l steps (step l st db)

-- The members of `KEY_RELEASING`.
abbrev pub releases : Action → Bool
releases unwrap_and_sign = true
releases unwrap = true
releases _ = false

abbrev pub named : String → Option String → Bool
named u none = false
named u (some v) = str_eq v u

-- The step is a wrap for this account, and it is allowed.
pub wraps_now : String → Limits → Step → Db → Bool
wraps_now u l (ask s c req) db =
    named u req.uid && action_eq req.action wrap && not (is_some (authorize s l c req db).0)
wraps_now u l (age now) db = false

-- How many wraps for this account a life allows.
pub wraps : String → Limits → List Step → Db → ℕ
wraps u l [] db = 0
wraps u l (st ∷ steps) db = (if wraps_now u l st db then 1 else 0) + wraps u l steps (step l st db)

-- The clock does not run backwards inside a call.
abbrev pub IsOrdered : Clock → Type 0
IsOrdered c = (c.rate_now ≤ c.sweep_now) × (c.sweep_now ≤ c.record_now)

abbrev pub AllOrdered : List Step → Type 0
AllOrdered [] = Unit
AllOrdered (ask s c req ∷ steps) = IsOrdered c × AllOrdered steps
AllOrdered (age now ∷ steps) = AllOrdered steps

-- A request for key material names its account, as cosigner/server.py sees to.
abbrev pub NamesAccount : Request → Type 0
NamesAccount req = releases req.action ≡ true → req.uid ≢ none

-- The clock never runs backwards, from `t` on.
abbrev pub IsMonotone : ℕ → List Step → Type 0
IsMonotone t [] = Unit
IsMonotone t (ask s c req ∷ steps) =
    (t ≤ c.rate_now) × IsOrdered c × NamesAccount req × IsMonotone c.record_now steps
IsMonotone t (age now ∷ steps) = IsMonotone t steps
