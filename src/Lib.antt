-- ===== src/Lib.antt =====
-- RSSI as a Service: the rules of the product's backend (Django, under backend/apps), as functions on
-- the rows of its tables, with the theorems about them.
--
-- The program is a platform for several clients (tenants). A client has at most one subscription to an
-- offer (plan); the offer and the negotiated overrides give its quotas and its features. The slots of
-- continuous monitoring that the clients may use are drawn from one pool of the platform. A client asks
-- for what it does not have by an access request, which an administrator moves to its conclusion;
-- people are told in the application's inbox. What an assistant sends to a language model bears tokens
-- for the values that identify a client. Its people follow courses through links, and pass a quiz that
-- gives a certificate. Accounts guard the entry: failed attempts lock, a second factor has codes that
-- serve once, and a link lets a person choose a password.
--
-- Files, and what they model:
--   Prelude, with Tests, Lists, Sorting, Results: the names shared by the others. `Result` is a call
--     that may raise.
--   Billing.Features, Billing.Features.Laws: backend/apps/billing/features.py.
--   Billing.Model: backend/apps/billing/models.py; `Db` holds the tables, `Env` the clock, the settings
--     and the answers of the mail server and of the cache to each write.
--   Billing.Capacity, with Alerts and Sent: backend/apps/billing/capacity.py, the pool, its guards and its
--     alerts.
--   Billing.Lifecycle: backend/apps/billing/services.py, start_trial, activate, suspend, cancel,
--     change_plan, expire_due_trials, record_payment, set_trial_end.
--   Billing.Negotiation, Billing.Negotiation.Coherence: the same file, set_quota_overrides,
--     set_feature_overrides and what they check.
--   Billing.Catalogue, with Propagation and Engagement: the same file, plan_impact, update_plan,
--     duplicate_plan, delete_plan.
--   Billing.TrialMigration: backend/apps/billing/trial_migration.py.
--   Billing.Entitlements, with Guards, Offers and Summary: backend/apps/billing/entitlements.py.
--   Billing.Rows, Billing.Commitment, with Operations, Sweeps, Edits and Reach: the table of subscriptions
--     and the sum of the slots that it engages, over any sequence of operations in which no change of an
--     offer raises the slots of a limited one.
--   Accounts.Lockout, with Ladder, Window and Rungs beside it: backend/apps/accounts/services.py, the
--     lockout after failed attempts; `Cache` and `CacheLaws` are the interface of Django's cache.
--   Accounts.SecondFactor, Accounts.CodeUses, Accounts.RecoveryCodes: the same file, the second factor;
--     `HasherLaws` is what is relied on of Django's password hashers.
--   Accounts.Invitations, Accounts.Links: the same file, the links to choose a password.
--   Inbox, Inbox.Delivery: backend/apps/notifications/inbox.py.
--   Assessments: backend/apps/assessments/services.py, the attribution of referentials.
--   AccessRequests, with Model, Subjects, Services: backend/apps/access_requests; Table, Constraint,
--     Outcomes, Follow, Reach, Answers, Grants, Stale: its theorems.
--   Assistant.Text, Placeholder, Mapping, Substitution: backend/apps/ai_assistant/services.py, the table of
--     identifying values and their tokens, `pattern.sub`; Payload, Conversation: the payloads, and the table
--     from turn to turn. Faithful, Collection, RoundTrip, Rehydration, Hiding, Turns: its theorems.
--   Assistant.Usage, Assistant.Counting: the same file, the monthly quota and the log of the calls.
--   Assistant.Jobs: backend/apps/ai_assistant/tasks.py, the tasks with their retries.
--   Training.Model, Links, Session: backend/apps/training/models.py and services.py, the nominative links,
--     the screens and the quiz; Attempts, Rows, Steps, Reach, Counting, Following, Grading, Quiz, Access:
--     its theorems.
--   Tenants.Members, with Admins, Reach, Inactive: backend/apps/tenants/services.py, the people of a client
--     and its last administrator.
--   Tests: runs on small inputs.
--
-- How the code is read:
--   - An operation takes the tables and returns them as it leaves them. One that raises returns `err`
--     and no tables, as a transaction that is rolled back.
--   - The object that an operation receives is a row as it was loaded, an argument of its own. A save
--     writes the named fields on the row of that key. That it was loaded from the present table is a
--     hypothesis where a theorem needs it.
--   - `Subscription.plan` is the joined row of `select_related`; a save of an offer updates it too.
--   - A call reads the clock once. Moments are seconds, prices cents.
--   - A unique constraint is a test on the table that a write would leave; a write that fails it is
--     refused. In `create_request` the reading of the check and the table of the write are two
--     arguments, since another deposit may stand between them.
--   - The newest rows of events, payments, mails, notifications and requests come first.
--   - Ratios of the capacity are compared multiplied out; the key of an alert is the truncated
--     percentage that the code computes. A cached key lasts to the end of its month.
--   - The cache, the hashes, the ciphers and the time-based codes are parameters; random values are
--     arguments. In Accounts and in Training a moment is a number of microseconds.
--   - In Assistant a text is a list of code points and a token a datum with its text; `str.strip`,
--     `urlparse` and the cipher are parameters.
--   - In Training an enrolment carries its learner and its version, the joined rows of `select_related`; a
--     fresh identifier or token is an argument, the digest a parameter, and so are the trimming of a
--     name and the last moment of a day in the local zone.
--   - Messages to people are constructors where no rule reads them, texts where a rule cuts or compares
--     them.
--
-- Every loop is a recursion on a list of rows or of code points. The queue alone runs on fuel, one unit
-- for a delivery of a job; three are enough, since a task is retried twice.
--
-- Not modelled: views, serializers, permissions, the rendering of documents and mails, the probes of
-- the network, the calls to outside services, the browser application and the deployment. The apps
-- monitoring, threat_intelligence, actions, the creation and the archive of a client, the campaigns
-- and the studio of training, the documents of ai_assistant, and the evaluations of assessments,
-- have no model here.
pub mod Prelude
pub mod Accounts
pub mod Assessments
pub mod Assistant
pub mod Training
pub mod Tenants
pub mod Inbox
pub mod AccessRequests
pub mod Billing
mod Tests
