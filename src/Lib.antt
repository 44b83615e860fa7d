-- ===== src/Lib.antt =====
-- Fortsa restarts the workloads of a cluster whose pods run an outdated Istio sidecar. A
-- controller is woken by changes of Istio's configuration, reads that configuration, scans the
-- pods, and annotates each workload that a pod with an outdated sidecar belongs to.
--
-- The parts, and the files that model them:
--   Base             shared names, texts as lists of bytes, results of Go calls, signed integers
--                    over the native numbers, Go maps as association lists
--   Kube, Json       the Kubernetes objects and the decoded JSON, with the fields that are read
--   Platform         what the program runs on: the API server, the clock, waits, encodings
--   Constants        internal/constants/constants.go
--   Modified         GetConfigMapLastModified of internal/configmap/configmap_parser.go and
--                    getLastModified of internal/mwc/trigger.go, which are the same computation
--   ConfigMaps       internal/configmap: ParseConfigMapValues (Parser), and
--                    BuildLastModifiedByRevision, ReconcileRequest and Filter (Fetch)
--   WebhookTags      internal/mwc/trigger.go: FetchTagToRevisionAndLastModified
--   Triggers         internal/namespace/trigger.go and internal/periodic/trigger.go; the goroutine of
--                    NewReconcileSource (Ticking)
--   Image            ParseImage and imagesMatch of internal/podscanner/pod_scanner.go
--   Scan             the rest of that file: listPods (Pods), shouldSkipPodForLastModified
--                    (Skip), getIstioProxyImage (Sidecar), findWorkloadOwner and its helpers
--                    (Owner), getIstioRevFromWorkloadOrNamespace (Revision),
--                    buildPodFromWorkload (Template), processPodForOutdatedSidecar (Process)
--                    and ScanOutdatedPods (Outdated)
--   Webhook          internal/webhook/webhook_client.go: the URLs and certificates, and
--                    CallWebhook (Call)
--   Annotator        internal/annotator/workload_annotator.go: Annotate, patchWithRetry and
--                    getRestartedAt
--   Controller       internal/controller/istio_change_reconciler.go: Reconcile, reconcileAll,
--                    scanAndAnnotate and annotateWorkloadsWithDelay, and
--                    SetupIstioChangeController and NewIstioChangeReconciler (Setup)
--   Command          cmd/main.go: main (Startup, over the calls of Host), the flags and their
--                    defaults (Flags) and parseSkipNamespaces (SkipNamespaces)
--   Tests            small runs, and the theorems at concrete inputs
--
-- How they fit together. Platform is a record that every part takes; its World is the state of
-- all outside the program at one moment. Reads, the webhook's call among them, see one world and
-- leave it; patches and waits return the world after them, in which anything may have changed. A
-- scan thus sees one world, where the source's reads follow each other in time. The
-- controller reaches the scanner's webhook by the interface WebhookCaller and the annotator by
-- the interface WorkloadAnnotator, which Webhook.Call and Annotator fill. The program builds its
-- reconciler from the flags and gives the manager what Controller.Setup registers: the watches,
-- whose requests the handler tells apart by their names, and the periodic source, whose goroutine
-- moves by the steps of Triggers.Ticking, where the ticker, the context and the loop may come in
-- any order.
--
-- Conventions. A call that can fail returns a Result, which is a value, an error, a panic, or
-- none for want of fuel. Texts are lists of bytes. The arguments that error texts are formatted
-- with are left out for the most part, since nothing reads them. A nil map or slice is the empty one,
-- and a pointer that may be nil is an Option. The order in which Go ranges over a map is a
-- parameter. Logging is left out.
--
-- Fuel. findWorkloadOwner is recursive without a bound in the source; its model takes fuel, and a
-- fuel above the length of the owner chain is enough: Scan.Owner.Fuel has this with a rank that
-- falls along the chain; Scan.Owner.Cycle is about chains that go round, for which there is no
-- bound. print_digits takes the number and one as its fuel, and a number has no more digits than
-- that. All other loops are structural.
--
-- Integers. Times and durations are integers of nanoseconds; time.Time.Sub stops at the ends of
-- 64 bits, which sub_time has. An addition of a duration to a time does not overflow the range
-- of time.Time for the times of a cluster, and is the sum.
--
-- Not modelled: the log; init of cmd/main.go, which fills the client's scheme; the tests' helpers
-- (test/utils), which run kubectl and helm; and the deployment files. Parameters of the model are
-- the API server, viper and pflag, the certificate watchers and the manager, the controller's queue,
-- the HTTP client, JSON encodings, JSON patches and the parsing of certificates.
pub mod Base
pub mod Constants
pub mod Kube
pub mod Platform
pub mod Json
pub mod Modified
pub mod ConfigMaps
pub mod WebhookTags
pub mod Annotator
pub mod Triggers
pub mod Controller
pub mod Webhook
pub mod Command
pub mod Image
pub mod Scan
mod Tests
