-- ===== src/Lib.antt =====
-- A model of nanolab, the harness that provisions, drives and judges load-test runs of nanoFaaS. Paths
-- are from the repository's root; N stands for packages/nanolab/src/nanolab.
--
-- The program plans a run, provisions its platform, drives load with k6 while background threads
-- sample the control plane, and then judges from the records whether the run showed what it claims.
-- The model covers the parts that keep state which must survive a crash, and those that judge:
--
-- * Cleanup (N/tasks/soak/retention.py, N/tasks/soak/teardown.py): the durable journal of generated
--   resources. CleanupState is the record Cleanup.State.CleanupState, its methods are `prepare`,
--   `retain`, `released`, `unknown_acquisition_of`, `require_compose_release` and `restore`; the reader
--   is Cleanup.Journal.read_cleanup_records. The journal file is a list of lines (Cleanup.Disk), every
--   write may fail, and Cleanup.Ledger runs sequences of calls. Cleanup.Compose is the Compose resource
--   that acquires and releases through that object.
-- * Concurrency (N/tasks/loadtest/concurrency.py): the readings of the governor that ConcurrencyWatcher
--   takes, and the verdict that ConcurrencySummary and verify_concurrency_cycle draw from them.
-- * Autoscaling (N/tasks/loadtest/autoscaling.py): ReplicaWatcher, the count of releases under load,
--   and VerifyAutoscalingReplicas.run against a probe.
-- * Conservation (N/tasks/one_shot/conservation.py): evaluate_conservation.
-- * Offload (N/tasks/loadtest/offload_conservation.py): its evaluate_conservation, from the counters read.
-- * Aggregator (N/tui/event_aggregator.py, N/tui/models.py): WorkflowEventAggregator. Its phases are
--   shared and mutable, so Aggregator.Store keeps them in a list by address; the dictionary of task ids,
--   the top level and the children hold addresses.
-- * Matrix (N/comparison/matrix.py), Retry (N/release/remote_retry.py) and Policy
--   (N/application/loadtest_policy.py): the order of a comparison's runs, the retry of a remote
--   operation, and decisions on load.
-- * Soak (N/tasks/soak): Lifecycle, Measure and Terminal are SoakLifecycle and TerminalSoakLifecycle of
--   workflow.py. Soak.Lifecycle.Lifecycle is the object with the log of its calls; its hooks, observer,
--   driver and clock are the record World of what each call answers after a log, and the engine that
--   runs the steps is the interface Soak.Measure.Engine with its laws. Soak.Evaluation is evaluate.py:
--   Index stores the samples that Criteria and Percentile judge, and whose results `merge_results`
--   and `combine_results` join; Whole is evaluate_run. A PASS of that verdict is what Terminal may
--   freeze.
--
-- Conventions: a method of an object is a function from the object's state to the state after it; a call
-- that may raise returns a Result, with the exception as its error; loops are structural recursion over
-- the list or the number of turns that bounds them in the source, so that none needs fuel. Counts are
-- natural numbers, also the counters of a scrape, which are floats with whole values in the source;
-- other floats are a type parameter with the operations that the code calls. Clocks, probes
-- and system calls are arguments: what each call answered.
--
-- Not modelled: the command line, the plans that wire tasks together, rendering, reports and plots,
-- provisioning of machines and clusters, and the libraries that the code calls (pydantic, httpx, k6,
-- kubectl, docker). In the parts above: HTTP scrapes and parsing of their text, JSON files written for
-- a reader, printed messages, the per-cell table of the conservation report, the
-- acceptance gate of a soak evaluation, and the prerequisite gate of a soak run.
pub mod Prelude
pub mod Cleanup
pub mod Concurrency
pub mod Autoscaling
pub mod Conservation
pub mod Aggregator
pub mod Matrix
pub mod Retry
pub mod Policy
pub mod Offload
pub mod Soak
