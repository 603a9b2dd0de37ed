-- ===== src/Lib.antt =====
-- httk-workflow: a filesystem-native workflow engine. Its state is the files of a workspace: the name
-- of a marker file is the state of a job, and a journal record holds the frame that goes with it. Task
-- managers claim ready jobs, run attempts of their steps, and move the jobs on by renaming markers;
-- operators post requests. This library models the protocol's names and frames and the decisions
-- that managers take on them (paths are below src/httk/workflow/).
--
-- Names: models.py and journal.py, the texts that the protocol parses and prints (base 36, UUIDs, job
--   keys, record references, marker basenames). A text is a list of code points.
-- Json, Frame, Resources, Job, Marker, Kinds, Errors: JSON values, state frames with their carried
--   members, requirements, retry policies, markers, and the exceptions of errors.py as values.
-- Document: the job document, models.py. Shape, Size, Paths, Environment and Declared are the validators,
--   Definition is JobDefinition.from_mapping; the other children hold the proofs.
-- World, Workspace: the disk of a workspace, and reading a state, loading a job and moving a marker
--   (workspace.py: read_state, load_job, transition, _verified_marker_rename).
-- Journal: journal.py byte by byte. Journal.Writer appends and rotates, Journal.Read and Journal.Verify
--   read by reference, Journal.Walk walks segments and Journal.Chain the history of a record; the
--   other children hold the proofs. The World above uses only that an append stores a record.
-- Transactions: transactions.py. Manifest and Operation check and read a manifest, Rename is the
--   verified rename on a tree of files, Replay the replay; the other children hold the proofs.
-- Stateful: code that changes a state and may raise, as the replay does.
-- Joins: when the join of a waiting job is satisfied or impossible (_manager_joins.py).
-- Scheduling: requirements, capacity, the ready jobs that a manager can claim, and its census
--   (_manager_scheduling.py).
-- Manager.Deferral: `_transition` of manager.py, through which every manager moves a job.
-- Manager.Commit: advance, retry and the failure of an attempt (_manager_commit.py).
-- Manager.Failure, Manager.Outcome: the failure that a runner publishes, and process_committing from the
--   action of the outcome on (models.py, _manager_commit.py).
-- Manager.Claim, Manager.Launch, Manager.Pass: a claim, its release, and the claim pass.
-- Resources.Valid, Scheduling.Selected: a requirement that a claim writes is read back as it is.
-- Manager.Requests: what an operator's request does (_manager_requests.py, and the request part of
--   _manager_cancellation.py).
-- Manager.Cancellation: finishing a cancellation (_manager_cancellation.py), with the signals sent as a
--   list and what polling and probing answer as a `Machine`.
-- Manager.Joins: what the manager does with the verdict on a join.
-- Tests: runs on small inputs.
--
-- A workspace is the record `World`. The parts that other programs or the machine decide are a
-- `Host`: the clocks, random identifiers, the reference of a new journal record, a fault of an
-- append, and for each transition the list of what the attempts of its rename do. A loop over
-- attempts recurses on that list, so that its length is the number of `visibility_attempts`. Base 36
-- digits are produced with fuel equal to the number, which a division by 36 uses up more slowly.
-- The digest and the JSON codec of the journal are a `Codec`; the hypotheses on it say that a digest is
-- 32 bytes and, of one record, what its JSON is read back as. The walk over a segment has as fuel the
-- length of the file, of which each round takes eight bytes at least; the walk over a history takes
-- its fuel as an argument. The digests of a transaction, whether a directory is empty, and what each
-- attempt at a rename meets are a `Kernel`; the tree of files is a function from paths.
-- Integers of the protocol are Python's, here ℤ over the native numbers; a generation is bounded by
-- 2 ^ 64 - 1 as in the source.
--
-- The length of a JSON value counts decimal digits with fuel equal to the number.
--
-- Not modelled: the checks of a new journal writer's identity and directory, writes that are cut short
-- (the walk over a torn segment takes any such bytes); file permissions, ownership checks, durability (fsync) and the marker index, which
-- repeats what is on disk; logs, anomaly reports and executor views; numbers with a fraction;
-- messages of exceptions; starting and reaping the processes of attempts; locating the job
-- of a request, the hazard that `_decided_join_hazard` finds, and verifying a signature, which are
-- arguments; decoding and hashing the bytes of
-- job.json, which the manager's part takes as a job that is loaded; transfers, seals, garbage collection, packages, the SDK and the command
-- line.
pub mod Base
pub mod Errors
pub mod Json
pub mod Kinds
pub mod Joins
pub mod Names
pub mod Resources
pub mod Frame
pub mod Marker
pub mod Job
pub mod Scheduling
pub mod World
pub mod Stateful
pub mod Journal
pub mod Transactions
pub mod Workspace
pub mod Document
pub mod Manager
pub mod Tests
