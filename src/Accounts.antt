-- ===== src/Accounts.antt =====
-- backend/accounts/account.py: the account manifest and its writers, over a state that holds the
-- manifest and the audit rows written so far. A writer holds the manifest's lock from its read to
-- its write, so each is one step; where one raises, the manifest is left as it was, and so the
-- model returns no new state.
pub mod Store
pub mod Samples
pub mod Lookup
pub mod Register
pub mod Settings
pub mod Unique
pub mod Keeps
pub mod ChatLink
pub mod Routing
mod Tests
