-- ===== src/Lib.antt =====
-- The AutoMQ operator: a Kubernetes operator, in Go, that keeps an AutoMQ (Kafka on S3) cluster for
-- every custom resource of kind AutoMQ.
--
-- Parts. An admission webhook (api/v1beta1) defaults and validates the custom resource. The reconciler
-- (internal/controller) fetches the resource, cleans up after one that is being deleted, and else adds
-- its finalizer, starts a ticker for its status, and runs a pipeline of seven methods on the object in
-- memory: make the S3 bucket, write the start script's config map, scale the controllers down, sync
-- them, scale the brokers down, sync them, sync the bootstrap service. A method answers whether the
-- pipeline goes on, and reports by a condition in the object's status. The ticker's update reads the
-- conditions and counts the running pods. A small HTTP handler tells the pods their node's address.
-- The program's main (cmd) makes the manager that runs all this; gen/version prepares a release.
--
-- Files.
--   Base       Booleans, lists, texts, and Go's `int` and `int32` (wrap-around written out) as `ℤ`.
--   Kube       Objects: the API objects' fields that the code uses. Env: the calls of the Kubernetes
--              client, of controller-runtime and of the AWS SDK, and the embedded script, as a parameter
--              on a world `W`. Laws: the documented behaviour of those calls, as hypotheses. Retry:
--              calls under `RetryOnConflict`. Memory: a cluster in memory, for tests and witnesses, and
--              its children Conditions and Lawful, by which it has the laws.
--   Api        Types: api/v1beta1/automq_types.go. Webhook: automq_webhook.go (`Default` is `default`,
--              `ValidateUpdate` is `validate_update`), its properties in Valid, Defaulted, Admission.
--   Storage    internal/pkg/storage: `NewBucket`, `NewStorage` and `awsConfig`, by which the reconciler
--              reaches S3; Operations: the operations on buckets and objects; Address:
--              `getBucketKeyFromS3`; Rewrite: `HeadObjectFromNewURIs`; Paths: the package `path`.
--   Defaults   defaults/zz_generated_bindata.go: `Asset`. Generate: gen/bindata/main.go,
--              the program that generates it.
--   Release    gen/version/gen.go, the program that prepares a release; its properties in Outcomes.
--   Controller Names, Requests, Pods, State: what the methods share. Pods is init_contrainer.go, and
--              State has the outcomes: a method returns or panics (`svc.Spec.Ports[0]` of a service
--              without ports, or the log of a controller's failure). Healthy: see below.
--              Brokers, BrokerDeploy and Bootstrap: automq_controller_b.go, one definition for each Go
--              method (`syncBrokerScale` is `sync_broker_scale`), one for each loop (`..._from`) and
--              loop body (`..._at`). Controllers and ControllerDeploy: automq_controller_c.go, likewise.
--              Pipeline and Reconcile: automq_controller.go. Status: automq_status_controller.go.
--              Apis: automq_apis.go.
--              Runs: the process, as a relation of requests and rounds of the tickers' loop.
--              The other modules, and the children of these, hold properties: Stored and Ready what a
--              method leaves on the server, Clean what a scale-down deletes, Reports and Conditions
--              which conditions the pipeline sets, Image and Script what of the specified image and of
--              the script does not reach the deployments; Controller/Ready joins a reconciliation to
--              the status update that follows it.
--   Startup    cmd/main.go and `SetupWithManager`: the calls of the libraries, in order, on the
--              environment of the process; its properties in Start.
--   Examples   A custom resource in the cluster in memory: tests and instances.
--
-- State. The object that the Go methods change through a pointer is `State.mq`, the rest of the world is
-- `State.world`; both are passed on explicitly. Errors are values (`Option Err`, `Result`). The loops
-- over replica indices run over `range`, the list of the indices, and so end.
--
-- Bounds. Replica counts are `int32`: where the code adds them the sum wraps (`add32`). The indices of a
-- loop lie below an `int32`, so that they do not wrap. No definition takes fuel.
--
-- Logging. Of the log only the three calls in `syncControllers` are in the model, which pass a key
-- without a value: whether the logger panics at that is `odd_log_panics` of Kube/Env.
--
-- What is assumed of the cluster. Laws: documented behaviour. A server is healthy for a custom resource
-- (Controller/Healthy) if it takes the requests that the operator itself makes for the specified replicas
-- and for the bootstrap service, in the worlds of the type `W`, and a read of a broker's service answers
-- what the server holds. `W` may be taken as the worlds in which nothing immutable stands in the way.
--
-- Not modelled. The other log lines; the parsing of flags; defaults/up.sh, and what nothing calls of its generated
-- embedding; the generated deep copies; manifests and charts; the tests. The interleaving of a tick with
-- the steps within one request is not modelled: `Run` takes each of them as a whole.
pub mod Base
pub mod Kube
pub mod Api
pub mod Storage
pub mod Defaults
pub mod Release
pub mod Controller
pub mod Startup
mod Examples
