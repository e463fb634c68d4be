-- ===== src/Lib.antt =====
-- Verification library of the Typesense Kubernetes operator, a controller that keeps a raft cluster
-- of Typesense nodes running as a stateful set.
--
-- The program. `Reconcile` brings the objects of a cluster up to date one after the other: the
-- secret, the config map with the list of raft nodes, services and routes, the stateful set. Then
-- `ReconcileQuorum` probes the nodes, writes the readiness gates of their pods, and downgrades or
-- upgrades the quorum by scaling the stateful set and rewriting the config map. All state is in the
-- API server; the operator keeps none between two passes.
--
-- The files, and what of internal/controller and api/v1alpha1 they model:
--   Base          Go's strings, numbers, maps and errors, and state passing with early returns.
--   Kube, Crd     the objects of the Kubernetes API that the operator builds (k8s.io, gateway and
--                 monitoring APIs), and the specifications of api/v1alpha1 inside the cluster's.
--   Api           the cluster, pods, config maps, secrets and stateful sets, as far as their fields
--                 are read. Api/Client is the API server, the nodes' HTTP endpoints and the
--                 decoders, as a record of calls that every part takes as a parameter;
--                 Api/Client/Stored what the documentation of the server promises of the objects
--                 of one kind; Api/Semantic the deep comparison of apimachinery. Api/Spec has the
--                 getters of the spec.
--   Utils         utils.go: maps, labels (Meta), `contains`, `getImageTag`, `hasIP4Prefix`,
--                 `getDelayPerReplicaFactor`.
--   Node          typesensecluster_quorum_types.go, typesensecluster_server_errors.go, and the
--                 reasons of typesensecluster_condition_types.go.
--   ConfigMap     typesensecluster_configmap.go: `getNodes` (Nodes), the endpoint slices
--                 (Endpoints), `ReconcileConfigMap` and the functions that write (Update), the
--                 patch of the pods and the helpers on node names (Force).
--   StatefulSet   typesensecluster_statefulset.go: `ScaleStatefulSet` and what follows it at the
--                 root, `buildStatefulSet` with its containers (Build, Containers),
--                 `ReconcileStatefulSet` with its requests (Reconcile). StatefulSet/Decision is
--                 typesensecluster_statefulset_hash.go and the choice of `ReconcileStatefulSet`;
--                 the hash itself is a parameter.
--   Quorum        typesensecluster_quorum.go and typesensecluster_quorum_helpers.go: the status of
--                 the cluster (Cluster), the probes of a node (Probe), the thresholds (Lag), the
--                 members (Members), the readiness gate (Gate), `downgradeQuorum` and
--                 `upgradeQuorum` (Resize), `ReconcileQuorum` (Reconcile).
--   Controller    typesensecluster_controller.go: the end of `Reconcile` from line 212 on, the part
--                 before it (Controller/Pass), with its own parts (Controller/Parts), and the
--                 patches of the status of typesensecluster_helpers.go and
--                 typesensecluster_condition_types.go.
--   Secret        typesensecluster_secret.go, and `generateToken` of utils.go.
--   Services      typesensecluster_services.go; Headless and Sync are what a pass leaves in the API
--                 server, Again what the next one does.
--   Scraper       typesensecluster_scraper.go, likewise: Changes is what is compared of a cron job,
--                 Jobs what is deleted.
--   PodMonitor    typesensecluster_podmonitor.go, likewise, and `IsApiGroupDeployed`.
--   HttpRoute     typesensecluster_httproute.go: the objects and their comparison (Objects), the
--                 deletion of what nothing asks for (Orphans), and `IsFeatureSupported`.
--   Ingress       typesensecluster_ingress.go: the ingress (Objects), the configuration of nginx
--                 (Nginx), deployment, volumes and service of the reverse proxy (Proxy).
--   Tests         runs at concrete data and an instance of each theorem that has arguments.
--                 Tests/Tables is a server that keeps the promises of Api/Client/Stored.
--
-- A function `getNodes` of the source is `get_nodes` here. A part of a function that is a definition
-- of its own says which lines it is. A call that may fail returns a `Result`, an early return is
-- `attempt` or `or_return`. An action is a function from a `World`, which is the state behind the
-- client and the list of the requests sent so far, to its result and the next `World`. The client
-- may answer anything and may change its state at every call, so the theorems hold whatever other
-- controllers do between two calls, unless a hypothesis says otherwise.
--
-- Bounds. Go's `int` and `int32` of a count or a port that is never negative is a ℕ; the queued
-- writes and the thresholds, which come from outside, are integers, and `Atoi` has the bounds of
-- 64 bits. Numbers are printed by a recursion on fuel, one more than the number, which is more than
-- its digits. Every other loop is over a list.
--
-- Not modelled: the event filters and `SetupWithManager` of the controller and the flags of cmd,
-- which configure controller-runtime; the generated deep copies; the defaults and validation rules
-- of the kubebuilder markers, which the API server applies; owner references, of which only the
-- failure to set one is seen; timeouts and logging. The hash of a template, deep equality, versions
-- and titles are parameters. A security context, resource requirements, an affinity and other
-- structures that the operator only copies and compares are texts. Text beyond ASCII is treated byte
-- by byte, which differs from Go only for white space beyond ASCII.
pub mod Base
pub mod Kube
pub mod Crd
pub mod Api
pub mod Utils
pub mod ConfigMap
pub mod StatefulSet
pub mod Node
pub mod Quorum
pub mod Controller
pub mod Secret
pub mod Services
pub mod Scraper
pub mod PodMonitor
pub mod HttpRoute
pub mod Ingress
mod Tests
