-- ===== src/Lib.antt =====
-- Models of the security core of cupel, a Kubernetes operator that scans machine-learning models,
-- keeps their verdicts, gates deployments on them and records the decisions in a tamper-evident chain.
--
-- The parts, and the files that model them:
--
-- - Base: the names that the modules share, Boolean tests, lists, texts as code points (TrimSpace,
--   EqualFold, ToLower on ASCII), sort.Strings and membership.
-- - Api: the fields of the resources of api/v1alpha1 that the components read and write.
-- - Audit: internal/audit/chain.go. Record holds Record, Canonical, ComputeHash and Seal; Escape and
--   Decimal are escape and strconv.FormatUint; Chain holds VerifyFrom, Verify, Head, anchors and
--   checkpoints. SHA-256 and the RFC 3339 format are fields of the parameter Encoding; a theorem that
--   needs it assumes that the format tells seconds apart and that both write single lines, and no
--   theorem assumes that SHA-256 has no collisions. Sequence
--   numbers and lengths wrap at 2 ^ 64.
-- - Audit/Store, Audit/Recorder and Audit/Archive: internal/audit/recorder.go and
--   internal/audit/archive.go. Store is what the API server keeps, the AuditRecord objects and the
--   checkpoint, with load, Chain, Size, Verify and the updates of putCheckpoint and advanceBoundary.
--   Recorder is Append with head, and Archive is Archiver.Run with sweep and deleteThrough, each as a
--   machine that makes one request in a step (writer_step, archiver_step). The attempts of an append and
--   the rounds of its catching up are counted in the state, with the limits of the code (4096 and 1000).
--   Audit/System puts any number of writers and one archiver side by side: a step is one request of any
--   of them, which succeeds, is refused, or takes effect while its reply is lost. What the sink and the
--   JSON encoding of a segment answer is a parameter; theorems assume that an encoded segment decodes to
--   itself, that fewer than 2 ^ 64 records are appended, and that a record is deleted only while no writer
--   holds an older head, which the number of retained records and the deadline of a caller are there for
--   and nothing enforces; Audit/System/Stalled runs a writer for which they were not enough.
--   Audit/System/Invariant says what holds in every reachable state, and Reachable and Acknowledged
--   what follows.
-- - Webhook: the admission webhooks. ModelRef is internal/webhook/modelref.go with refFromEvidence of
--   internal/webhook/discover.go; Reads is what internal/webhook/gate.go reads (findReport,
--   enforcementFor, promotionModeFor), over a Cluster that answers every read by an object, by not
--   found or by an error; Evaluate is evaluate, Gate is Handle and the deferred recordDecision of
--   internal/webhook/audit.go. Exception and Promotion are the signers of internal/webhook/exception.go
--   and internal/webhook/promotion.go: they turn the request as the API server authenticated it into a
--   refusal or the stored object.
-- - Controller/Promotion: internal/controller/promotion_controller.go. The world is the status of the
--   request, the environments of its report, and the chain's records of its decision; a set of faults
--   says which updates the API server refuses, and which take effect while their reply is lost. What it
--   approves is what Webhook/Promotion signed, and
--   the environments that it writes are those that Webhook/Evaluate asks for.
-- - Policy: internal/policy. The gate of the scanning library is a parameter.
-- - Controller/Scan: internal/controller/artifactscan_controller.go. Jobs is resolveScanners, ensureScanJob
--   and collectResults, Report is upsertModelSecurityReport, recordVerdict and summarize, Reconcile is
--   Reconcile with its phases, fail and reevaluate. The world is the status of one scan, its jobs, the
--   reports of its scanners, the report on its model, which the gate of Webhook reads, and the entries of
--   its verdicts; a set of faults says which requests are refused. A job is known by its scanner, so
--   names of jobs, current or legacy, that collide are left out.
-- - Authz: internal/authz. Roles is authz.go, Bindings is binding.go, Redact is redact.go.
-- - Compliance: internal/compliance. Catalog is the data of framework.go and catalog.go; Observed and
--   Evaluate are evaluate.go.
-- - Naming: internal/naming/naming.go and internal/controller/names.go, over the characters of a name:
--   Sanitize, Stable, LegacyStable, labels and the names that are made of them. The loop that
--   replaces double dashes runs on fuel, the length of the text, since every pass shortens it.
--   The fingerprint is a parameter; the theorems on it assume that it has 10 characters.
-- - Session: internal/api/session.go, the signed cookie of the console. HMAC, base64 and JSON are fields of
--   the parameter Library; the round trip assumes that the last two decode what they encode.
-- - Maintenance: internal/maintenance/prune.go, over what the API server answers.
--
-- A message, a reason or a warning is a value that holds the facts its text is formatted from. Times
-- are natural numbers of nanoseconds, and a missing time is none. A Go map is an association list with
-- distinct keys, a function, or the sorted list of its keys. The other loops that are modelled run over
-- a list that is given, and are structural recursion.
--
-- Not modelled: clients of remote services, HTTP and OIDC plumbing, metrics and logs, flags and
-- wiring, generated code, the published texts of the frameworks, and the scanning library that policy
-- and runner call. The walk of internal/webhook/discover.go over the nested fields of a workload is an
-- input of the gate. Of internal/audit/archive.go the sink over a directory and
-- ReadArchive are file access. The manifest of a scan job and the rendering of the
-- trust policy are not modelled.
pub mod Base
pub mod Api
pub mod Audit
pub mod Webhook
pub mod Controller
pub mod Authz
pub mod Compliance
pub mod Maintenance
pub mod Naming
pub mod Policy
pub mod Session
