-- ===== src/Daemon.antt =====
-- What the mail daemon does with its two spools and with the mail: backend/spool.py,
-- backend/billing/billing_queue.py, backend/daemons/wake_queue.py, backend/daemons/gmail_hook_server.py,
-- backend/integrations/gmail_gcal/mailbox.py, backend/daemons/pipeline.py, and the two functions of
-- backend/daemons/daemon_loop.py that drain the spools. A spool is the list of its lines, oldest first;
-- append and drain hold its lock, so each is one step.
pub mod BillingQueue
pub mod WakeQueue
pub mod Mailbox
pub mod Pipeline
pub mod Hook
mod Tests
