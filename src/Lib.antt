-- ===== src/Lib.antt =====
-- OpenLLMOps: the control loop that shares whole GPU cards among deployments, training jobs and
-- evaluations.
--
-- The control plane keeps three tables of workloads and a table of leases. A request of the
-- management API changes a row (a deployment is started, stopped, updated, deleted; a job is
-- terminated, canceled, deleted). The reconciler runs in rounds: it asks the node agent about
-- every active workload and applies what the agent observes, deletes expired leases of workloads
-- that have ended, and claims the head of one FIFO queue, which takes a lease on every card of
-- that workload or waits. The node agent executes commands; it keeps the newest generation of
-- every workload and the answers to recent requests on its disk, so that late and repeated
-- commands do no harm.
--
-- Which file models which part:
--
--   Workloads         backend/app/models/enums.py, entities.py: states and rows
--   Leases            backend/app/services/gpu_scheduler.py: GPULeaseManager
--   Agent             backend/app/schemas/agent_contract.py: commands and responses
--   Reconciler        backend/app/services/reconciler.py: Database has the snapshots,
--                     Observe and ObserveJob _apply_observation, _record_agent_error and
--                     _fail_start, Claim _claim_fifo_head, Reap
--                     _reap_terminal_expired_leases, Round run_once
--   Cleanup           backend/app/services/workload_cleanup.py
--   Routes            backend/app/api/routes/deployments.py, training_jobs.py,
--                     evaluations.py: the requests that change a workload's state
--   Node              agent/openllmops_agent/command_service.py: Commands has
--                     CommandStateStore and execute, Inspect what is read from
--                     a container, Report _response_from_info and _dispatch;
--                     Signing is HMACSigner and NonceReplayCache of
--                     agent/openllmops_agent/agent_contract.py
--   Docker            agent/openllmops_agent/docker_runner.py: Labels and Info read a
--                     container, Engine is the interface to the Docker engine,
--                     Allocate has gpu_allocations, its checks and _run_container,
--                     Operate the operations on one container, Serve gives the
--                     runner to the node agent's dispatch
--   Imports           backend/app/services/model_import_coordinator.py, a state machine of
--                     its own: Table has the jobs, Jobs the transactions on one job,
--                     Recovery recover_stale_model_imports, Publish _finalize_ready and
--                     the end of _execute, Coordinator run_once
--   Prelude           shared helpers: equality, lists, sorting, dictionaries, ℤ, errors
--
-- Proofs stand beside what they are about: Leases/Normal, Outcome, Exclusive, Acquire and
-- Reaping; Reconciler/Order and Fifo; Reconciler/Waiting, Leaving, Ends and Termination, which
-- follow the number of rows that wait; Leases/Stale; Node/Waterline, Replay, Fencing, Durable,
-- Bounded, Failure, Absence, Nonces, Replays and Once. In Docker, Moves states what the engine
-- does as laws over the containers that there are, Quiet and Checks show which operations
-- activate nothing, Returns and Described what a call has seen, Grants what a passed check of
-- cards means, Creating and Starting treat the two operations that make a container active, and
-- Exclusion takes all operations together; Removal, Halting, Quiesced, Preparing and Missing say
-- what an operation leaves behind, and Absent joins them with the dispatch. Sample and SampleLaws
-- are an engine at which the laws hold. In Imports, Sound defines the invariant, Rows,
-- Recovering, Changes, Endings and Claiming show that each transaction keeps it, Lifecycle takes
-- all of them together, Filling shows that a round consists of such transactions and is about its
-- loop of claims, and Requests about cancellation and recovery. Safety joins the reconciler, the
-- leases and the requests: Backing defines a safe database, one file for each kind of transaction
-- shows that it stays safe, Exclusion takes all of them together, Restart follows a start during
-- a stop, and Race a stop that overwrites the end of a deployment. The Tests files run the
-- theorems at concrete inputs.
--
-- How the code is read. A transaction is a function from a database to a database; one that
-- raises returns an error, and then nothing of it is committed. The three workload tables are one
-- list of rows tagged by their table; a UUID is a number, a datetime a number of microseconds, a
-- float a number of millionths. The advisory lock and the row locks make the reconciler's
-- transactions run one after the other. A request to start, stop or update a deployment or to
-- cancel an evaluation reads its row without a lock: it is a function of the database at the
-- reading and of the database at the commit, and writes the columns that it has changed onto the
-- row that is there then. Where the lease manager itself allows a race, between its query and its
-- insertion, the model has a parameter for what others commit meanwhile. The node agent's hashes,
-- the Docker engine, the digest and the start of a container up to its launch are parameters, and
-- so are the control plane's checks of files (training_control.py, evaluation_control.py), the
-- agent that it calls, the clock and uuid4.
--
-- Every call to the Docker engine may move the containers on: its state is passed from call to
-- call. The allocation lock is held throughout an operation of the runner, so that operations
-- follow each other. That the engine by itself creates no container and activates none that has
-- ended is a law (IsDocker); a container has the labels that it is created with, beside those of
-- its image. A text stands for its characters; the headers of a request are found by their names.
--
-- Imports. One coordinator at a time holds the instance lock; when it ends, another one may
-- start, with no tasks. What the importer's run comes to is any outcome, at any time. A
-- transaction that reads a job and writes it later without a lock has a parameter for the
-- requests to cancel that are committed meanwhile; with SKIP LOCKED no row is found locked. The
-- time of the last update of a row, which the database sets, is taken from the clock of the
-- transaction; in the other tables this column is left out. That an asset is deleted, which
-- empties the result of a job, is left out.
--
-- Bounds and fuel. No number is bounded by a machine width: the code's integers are Python's. The
-- scheduling loop of a round takes fuel and says so when it runs out: every attempt that goes on
-- takes a row out of the queue, so that more fuel than rows is enough, unless the agent answers a
-- start by the state absent, which puts a deployment into the queue again. The loop of claims of
-- the import coordinator goes on at most as often as it has places. The cache of the node agent
-- keeps 2048 requests.
--
-- Not modelled: what a launch checks and composes before it asks for cards (images, paths,
-- command lines) and the reading of results (docker_runner.py), the preparation of files for
-- training and evaluation, what the importer does with files and repositories, data sets,
-- monitoring, the dashboard, the requests that create rows or only read them (a created row is
-- any inactive row with a fresh key), the loop around the rounds, the user interface and the
-- deployment files. Messages that the code composes from several parts keep their fixed text.
pub mod Prelude
pub mod Workloads
pub mod Leases
pub mod Agent
pub mod Reconciler
pub mod Cleanup
pub mod Node
pub mod Docker
pub mod Imports
pub mod Routes
pub mod Safety
