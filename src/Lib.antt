-- ===== src/Lib.antt =====
-- FixZone enterprise API: the life of a report, payments, internal administration, and authentication.
--
-- The program is a NestJS service over a database: citizens report problems, organizations accept
-- them, providers are assigned and do the work, and the completion of the work is confirmed,
-- verified, governed or closed after a deadline; organizations buy plans through a payment
-- provider; users log in and recover their accounts, administrators pass a second factor, and
-- roles are delegated under a ceiling and with approval by a second person. This library models
-- the report service (src/report/report.service.ts) and its transition table (src/report/report-
-- workflow.ts), the payments service (src/payments), the second factor of privileged accounts
-- (src/auth/privileged-mfa.service.ts), internal administration (src/internal-admin), and login,
-- sessions and the recovery of accounts (src/auth/auth.service.ts).
--
-- Where the parts are:
--   Base             Boolean tests, text, lists, tables with rows under identifiers, and results
--   Report.Types     the enumerations of prisma/schema.prisma
--   Report.Workflow  src/report/report-workflow.ts
--   Report.Policy    reviewStateFor, isCompletionSatisfied
--   Report.Model     the columns of the report table, the caller, the user table, the configuration
--   Report.Effects   createNotification, recordReportActivity, audit, the notices to operators and
--                    resolvers, and the steps that a handler is made of
--   Report.Assignment, Report.Expiry
--                    assignProviderById, cancelAssignment, reassignProvider, rejectAssignment,
--                    processOverdueAssignments, expireOverdueAssignments
--   Report.Intake    acceptOrganizationReport, rejectOrganizationReport
--   Report.EvidencePath, Report.Status
--                    updateStatus and the normalisation of evidence paths; Request has the data of a
--                    completion, and Notices who hears of a change
--   Report.Completion, Report.Verification
--                    the decisions of the citizen and of the organization
--   Report.Governance
--                    the six calls of the super administrator; Handler has what they share
--   Report.Deadlines processCompletionReviewDeadlines
--   Report.Service   all of these handlers and the processor as one function over requests
--   Report.Decisions, Report.Lifecycle, Report.Rework, and the modules named Laws, Walks, Closing,
--   Listing, Keeps, Allows, Dispatch, Reviews, Windows, Serve
--                    lemmas and theorems
--   Report.Examples  a small town on which the theorems are applied
--   Payments.Catalog src/payments/plan-catalog.ts
--   Payments.Books   the tables of prisma/schema.prisma that payments read and write
--   Payments.Paystack
--                    src/payments/paystack.adapter.ts: readiness, signatures, the reading of messages
--   Payments.Settlement
--                    processTrustedProviderTransaction, paymentMismatch, fulfillPayment; Updates has the
--                    rows that a fulfilment writes
--   Payments.Service initializeOrganizationPayment, verifyTransaction, handlePaystackWebhook; Access has
--                    assertBillingReader and assertBillingAuthority
--   Payments.Reconcile, Payments.Calls
--                    reconcilePending; the calls that change the books as one function over requests
--   Payments.Settlement.Cases, Grants, Final, Again, Balance, Payments.Advances and the modules named
--   Counts, Keeps, Forged, Codes, Signatures, Served
--                    lemmas and theorems on payments; Payments.Examples applies them
--   Mfa.Base32, Mfa.Totp
--                    base32Encode, base32Decode, generateTotpCodeForStep, matchTotpStep
--   Mfa.Vault        the tables of the second factor, and requiresPrivilegedMfa
--   Mfa.Sessions, Mfa.Challenge, Mfa.Enrolling
--                    validatePreAuth and recordFailedAttempt; completeChallenge; createPreAuthSession,
--                    startEnrollment, confirmEnrollment, and all calls as one function over requests
--   Mfa.Challenge.Cases, Once, Spent, Mfa.Enrolling.Touches, Guards, Limits, Phases, and the
--   modules named Digits, Shifts, RoundTrip, Ends, Codes, Window
--                    lemmas and theorems on the second factor; Mfa.Examples applies them
--   Admin.Catalog    src/internal-admin/internal-role-catalog.ts and the permissions
--   Admin.Office     the tables of internal administration, the caller, and calls as a monad
--   Admin.Authority, Admin.Scopes, Admin.Emails
--                    effectivePermissions, hasPermission, assertGrantCeiling; resolveScope;
--                    normalizeEmail
--   Admin.Approvals  createApprovalRequest, decideApprovalRequest, approvalDecisionEligibility
--   Admin.Delegation, Admin.Accounts
--                    inviteAdministrator, assignRole; acceptInvitation, removeRole, the states of
--                    accounts, revokeSessions, and all calls as one function over requests
--   Admin.Accounts.Changes
--                    the kinds of writes that the calls make; Calls, Granting and Requests show
--                    it of each call
--   Admin.Runs, Admin.Limits and the modules below them
--                    what holds over any series of requests, and of single calls; Admin.Examples
--                    applies the theorems
--   Auth.Registry    the tables of authentication, and what it uses besides
--   Auth.Recovery    requestPasswordReset, createPasswordResetToken, completePasswordReset; Resets and
--                    Issues have the theorems on them
--   Auth.Login       login, issueTokens, and JwtStrategy.validate of src/auth/strategies; Admits has the
--                    theorems
--   Auth.SecondFactor
--                    completeMfaChallenge over the second factor; Auth.Examples applies the theorems
--
-- How the code is modelled. A handler is a function from the tables to its answer, an exception or a
-- report, and the tables after it. Most handlers read a report, check it, update it, and then write
-- notices, activity and audit rows: these are `with_report` with the handler's checks and its effects.
-- Exceptions keep their class and their message. The tables have the rows of the database under
-- identifiers; that no identifier stands twice is the database's primary key, and a hypothesis where it
-- is needed. `update` writes the row that the read gave with the changed columns, in place, so a handler
-- is taken to run alone. Identifiers are numbers, with 0 for the empty text; times are numbers of
-- milliseconds, and one call reads the clock once. The loops run over the rows of a list, by recursion
-- on it, and need no fuel, except two. The inner loop of base32Encode has as fuel the number of bits it
-- starts with, of which each round takes five; the printing of a number has the number itself, which
-- each round divides by ten. A 32-bit number of base32 is its remainder by 2 ^ 32. Where the source
-- subtracts, the number is large enough, or the other case is written out, as for the first time step.
--
-- What is a parameter. The user table, the clock, the assignment timeout, the configured completion
-- policy, the answer of the trust service and of the workflow orchestrator, and the parser of URLs are
-- fields of `Env`; the policies that updateStatus reads (`PolicySources`), the responsibility resolution
-- that intake reads (`Resolution`), the existence of organizations, and the order and
-- limit in which the deadline processor's query answers its rows, are arguments. The payment provider's answers, the permissions of the internal
-- administration, settings and fresh values are fields of `Desk`; the digest of webhooks and what the
-- adapter takes from JavaScript are fields of `Platform`; `Date` moved by a month or a year is in
-- `PayEnv`. The digest, the cipher, the HMAC, upper case and the random values of the second factor are
-- fields of `MfaEnv`. The enterprise flags, upper and lower case, the reading of dates and fresh values of
-- internal administration are fields of `AdminEnv`. Hashes of passwords and tokens, the delivery of mail,
-- the second factor and the trust service's identities are fields of `AuthEnv`; a session is its claims,
-- with their expiry in whole seconds as the token library documents it, since their signature is not
-- modelled. The deadline processor's audit row belongs to no report, and
-- has the report identifier 0.
--
-- What is not modelled: the creation and routing of reports, assignOrganization, file upload,
-- dashboards and the free-form metadata of activity, audit and payment rows; the payment calls
-- that only read; the provisioning URI of an authenticator; the lists of internal administration,
-- which read, and write at most an audit row; the login through Firebase, the session after an
-- enrollment and changes of the own profile; the other services (organizations, trust,
-- configuration); controllers, data transfer checks, database migrations and scripts.
pub mod Admin
pub mod Auth
pub mod Base
pub mod Mfa
pub mod Payments
pub mod Report
