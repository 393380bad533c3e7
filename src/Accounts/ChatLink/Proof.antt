-- ===== src/Accounts/ChatLink/Proof.antt =====
-- The chat of an account changes only with a code that was posted since it was asked for, and from
-- the linked chat where there is one.
use email_summary.Prelude.{ℕ, String, Bool, ◌&&◌, List, str_eq, leb, some_pass}

-- The chat posted, not before `since`.
abbrev pub was_posted : String → ℕ → List (String × ℕ) → Bool
was_posted chat since = some_pass (λ p. str_eq (p.0) chat && leb since (p.1))
