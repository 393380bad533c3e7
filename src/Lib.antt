-- ===== src/Lib.antt =====
-- email_summary: the hosted mail assistant of this repository, as far as its own decisions go.
--
-- The program is a set of small processes. The co-signer (cosigner/) holds half of every mailbox
-- key and decides, request by request, whether the mail enclave may use it. The account store
-- (backend/accounts/account.py) is the one manifest that the web pages, the daemon and the billing
-- side read, each through its readers, and change, each through its writers. The mail enclave keeps
-- one data key for each account (backend/custody/keyring.py), which opens only with the co-signer's
-- half, and the co-signer answers only an enclave whose quote it verified (cosigner/attest.py). The web
-- pages sign their cookies (frontend/session.py), and whatever leaves the machine passes the egress
-- proxy (backend/daemons/egress_proxy.py). The billing side
-- (backend/billing/) turns what Polar says about a customer into the plan of an account, which is
-- what decides whether the daemon serves the account at all.
--
-- Which file models which part:
--   Prelude            shared names, Boolean tests, lists, and Python sets as lists; split and join in
--                      Prelude.Split, str and int in Prelude.Decimal.
--   Cosigner.Audit     cosigner/audit.py: the tables `requests` and `grants`, `record`, the window
--                      counters, `ever_granted`, and the backfill of `connect`. A database is a
--                      record of the two tables, and each call is one step, since it holds the lock.
--   Cosigner.Reason    the refusals of cosigner/policy.py with their numbers.
--   Cosigner.Policy    cosigner/policy.py: `authorize` and the rules it calls, in its order; `_alert`
--                      in Cosigner.Policy.Alerts, `allowed_target` in Cosigner.Policy.Targets.
--   Cosigner.Retention cosigner/retention.py: `prune`.
--   Cosigner.Service   a life of the co-signer: requests and prunes in any order.
--   Cosigner.Server    cosigner/server.py: do_POST and its handlers. A handler is what it asks the policy,
--                      with the response that it gives once the policy allows; `serve` is a run.
--   Attestation        backend/tee/quote_policy.py: the allowlist, its mode, and `verify`; with
--                      verify_client of cosigner/attest.py and the cache of verdicts in
--                      Attestation.Client.
--   Custody            backend/custody/keyring.py, with seal_dek and open_dek of wrapping.py. A shelf is
--                      the disk, the keys in memory and the calls made; an operation takes a shelf
--                      and gives an end and the shelf after it; the documents are in Custody.Files.
--   Session            frontend/session.py: signed values, the form token, and the cookies with several
--                      pending values. A cookie is its value.
--   Egress             backend/egress.py; Egress.Proxy: backend/daemons/egress_proxy.py, from the lines of
--                      a request to the tunnel.
--   Accounts.Store     backend/accounts/account.py: an entry of the manifest, the transaction around
--                      every writer, and the writers set_plan_status, set_telegram,
--                      set_polar_customer_id, set_voice and delete_account. A writer returns the new
--                      state, or an error and then no state, since the file is not written.
--   Accounts.Register  register_account and check_handle; Accounts.Settings: set_settings.
--   Accounts.Lookup    the readers: all_accounts, load_accounts, get_account and the others.
--   Accounts.ChatLink  backend/accounts/chat_link.py: begin, finish and force_unlink, with the bot's inbox
--                      (posts_of of backend/integrations/telegram.py) and the clock as arguments.
--   Billing.Polar      the objects of Polar's API, and the API as an interface, a record of the four
--                      requests of backend/billing/polar_api.py that the model calls.
--   Billing.Resolve    backend/billing/billing.py: resolve_account. Billing.Events: apply_event.
--                      Billing.Checkout: confirm_checkout, portal_url. Billing.Reconcile: reconcile.
--   Daemon             backend/spool.py as a list of lines; backend/billing/billing_queue.py and
--                      process_billing of backend/daemons/daemon_loop.py in Daemon.BillingQueue,
--                      backend/daemons/wake_queue.py and process_accounts in Daemon.WakeQueue. The
--                      accounts do not change while the wake list is worked off.
--                      Daemon.Mailbox: fetch_since_history of
--                      backend/integrations/gmail_gcal/mailbox.py over gmail_api.py, with what
--                      Gmail answers as a parameter. Daemon.Pipeline: process_account of
--                      backend/daemons/pipeline.py over the state file of backend/accounts/state.py.
--                      Daemon.Hook: backend/daemons/gmail_hook_server.py, from a push's headers to the queue.
--   Trail              backend/audit.py: the rows, their checks, and how long they stay.
--   Scheduler          backend/daemons/scheduler.py: Cadence, due and tick. A moment is the hours since
--                      a Monday at midnight UTC, and the microseconds into the hour.
--
-- Times are whole seconds, and `now - window` stops at 0, which selects the same rows, since no row
-- is older than 0. Loops are recursions on lists. The loop over the pages of subscriptions alone
-- runs on fuel, since how many pages there are is Polar's answer: as much fuel as there are pages is
-- enough. Text is lowered and stripped as ASCII.
--
-- The parameters are what is not this repository's: HMAC, AES-GCM, dcap-qvl, X.509, base64, the
-- resolver, random bytes and clocks. Bytes are numbers, or the characters of latin-1.
--
-- Not modelled: sockets, files, SQLite itself and its locking, the cryptography, and the text of
-- log lines and messages.
pub mod Prelude
pub mod Cosigner
pub mod Accounts
pub mod Billing
pub mod Scheduler
pub mod Daemon
pub mod Session
pub mod Egress
pub mod Attestation
pub mod Custody
pub mod Trail
