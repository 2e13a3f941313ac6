-- ===== src/Lib.antt =====
-- A verification library for Kapacity, the Kubernetes autoscaler. The program is a set of
-- controllers. An IntelligentHorizontalPodAutoscaler (IHPA) names portrait providers; its controller
-- asks each provider for a portrait value, chooses one, and writes a ReplicaProfile, at once or by
-- a gray change. The controller of the ReplicaProfile moves the target's pods between the states
-- online, cutoff and standby, and scales the target. A dynamic provider reads its portrait from
-- a HorizontalPortrait, whose controller generates the portrait data reactively from metrics, or has
-- an external job compute them. A metric service answers the queries of such jobs.
--
-- Paths are from the repository's root.
--
-- - Common: shared notation, integers with Go's int32 and int64, sets, maps, instants, the results of Go
--   functions (a value, an error or a panic), programs as trees of their calls with contracts
--   (Prog), and the worlds that calls change (World).
-- - Api: apis/autoscaling/v1alpha1, the fields that the program reads or writes.
-- - Util: pkg/util/math.go, ParseScaleSelector of pkg/util/apimachinery.go, pkg/util/client.go in PodLister, and
--   pkg/util/wait.go in Backoff. SetConditionInList and NewControllerRef stand in Api/Meta, pkg/util/pod.go in Pod/Util, IsCronActive of
--   pkg/util/time.go in Portrait/Cron, and the map helpers of pkg/util/common.go in Common/Dict.
-- - Pod: pkg/pod/state.go, labels.go and sorter. State has the labels and the classification of
--   pods, Manager the state manager and CalculateStateChange.
-- - Workload: pkg/workload, the sorters of the workloads.
-- - Scale: pkg/scale/scaler.go.
-- - Portrait: pkg/portrait/provider. Cron has the crons in force, Triggers the trigger managers of
--   common.go, Dynamic the value of portrait data (buildPortraitValue), Provider the operations of
--   dynamic.go.
-- - Ihpa: controllers/autoscaling/intelligenthorizontalpodautoscaler_controller.go. Gray has
--   generateIHPAReplicaData, Portrait updateAndFetchPortraitValue, Profile the ReplicaProfile that is
--   written, Reconcile the helpers of Reconcile, Loop Reconcile itself.
-- - Profile: controllers/autoscaling/replicaprofile_controller.go, with pkg/pod/traffic in Traffic.
--   Desired has the numbers, Change the state change, Loop Reconcile, Watch the pod watch.
-- - Hp: controllers/autoscaling/horizontalportrait_controller.go. Job has the external jobs, Loop
--   Reconcile, Tracked the world of the jobs of a portrait, Handover what the functions do to it.
-- - CronJob: pkg/portrait/algorithm/externaljob/jobcontroller/cronjob.go. Update has UpdateJob and
--   CleanupJob, Cluster and Cleanup the cluster that they change.
-- - ConfigMap: pkg/portrait/algorithm/externaljob/resultfetcher/configmap.go. Fetch has FetchResult,
--   Watch the event handlers.
-- - Reactive: pkg/portrait/generator/reactive/generator.go. Calculator has the proposals of the metrics,
--   Generator GenerateHorizontal.
-- - Metric: pkg/metric. Data has query.go and value.go, Service pkg/metric/service/server.go, Client
--   pkg/portrait/generator/reactive/metrics_client.go, Api pkg/metric/provider/metricsapi/provider.go.
-- - Prometheus: pkg/metric/provider/prometheus. Range has promQueryRangeSharding, Provider the queries of
--   provider.go and Result its conversions, Query query.go, Registry the two series registries,
--   Lister and Relist runnable.go, Config the configuration. Naming is what is used of
--   the Prometheus adapter.
-- - Webhook: internal/webhook/pod/mutating.
--
-- Go functions without calls to other systems are functions that return Go's results. The three
-- Reconcile functions, and the functions that keep a CronJob or a portrait, are programs
-- (Common/Prog): a tree of calls, each with every reply it may get, where the clock, the API server and the providers are calls. A contract says what replies are
-- relied on and what calls are allowed, and Safe that a program keeps it; run gives the trace of
-- calls in a world, and run-Safe that a safe program's trace has allowed calls only. A World adds
-- a state outside: what each call may do to it and what calls are allowed in it, and Keeps that a
-- program stays within this and ends in a state as promised. An object that
-- a write changes is passed on as the server answered.
--
-- Integers are unbounded, and int32 reduces a value wherever the source's int32 arithmetic can leave
-- the range; so does int64 for the length of a shard. Instants are nanoseconds since the zero time of Go and do not overflow. All recursion is
-- on lists but that of promQueryRangeSharding, whose loop has no bound and is given fuel: a shard
-- and the step behind it use up one unit, so the length of the range divided by 11001 steps, and one
-- more, is enough. The order in which a map or a set is ranged over is a parameter
-- of which only this is assumed, that it is a permutation. A generation of replica data reads the
-- clock once, where the source reads it up to twice. What a sorter returns depends on the pods
-- alone during one reconciliation.
--
-- What a job controller fills into the spec of the portrait that it is given is not seen by the
-- controller, which afterwards writes only the status. Floats are a type of which only the operations
-- that the source uses are given.
--
-- Parameters: controllerutil's finalizer operations, strings.Split, Contains, TrimSuffix and ToLower, the
-- text of an error, labels.Parse and the conversions between selectors, schema.FromAPIVersionAndKind,
-- UpdatePodCondition, the order of ActivePodsWithRanks, sort.Slice, strconv.Atoi, ParseInt and
-- ParseFloat, time.Parse, json.Unmarshal and Marshal, the semantic equality of specs, the REST
-- mapper and the scale client, Prometheus and its adapter, the order in which the answers to concurrent
-- requests arrive, the ReplicaCalculator, cron.ParseStandard, time.LoadLocation and
-- hashstructure.
--
-- Not modelled: the reading of the Prometheus provider's configuration file, the setup of the managers,
-- the owner references of created objects, logs, generated code, and the wiring of the program.
pub mod Common
pub mod Pod
pub mod Api
pub mod Util
pub mod Ihpa
pub mod Hp
pub mod CronJob
pub mod Webhook
pub mod Metric
pub mod ConfigMap
pub mod Reactive
pub mod Scale
pub mod Workload
pub mod Profile
pub mod Prometheus
pub mod Portrait
