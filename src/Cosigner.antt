-- ===== src/Cosigner.antt =====
-- The co-signer: cosigner/audit.py, cosigner/policy.py, cosigner/retention.py and cosigner/server.py.
pub mod Reason
pub mod Audit
pub mod Policy
pub mod Retention
pub mod Service
pub mod Server
mod Tests
