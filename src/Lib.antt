-- ===== src/Lib.antt =====
-- Statix is a node agent that attributes kernel events to workloads, and a gateway that stores what
-- the agents send. This library models both sides, and the log between them that outlives a crash.
--
-- The agent (statix/src):
-- - Agent.Attribution: the cache of cgroups, their labels and pods of attribution/mod.rs. Names is
--   the parsing of paths and directory names, Cache is `AttributionCache` with one function for
--   each method, Files the readers of a cgroup's files, PodInfo what is read off a pod, Pods the
--   merging of labels and the watch events, and Walk the two passes over everything there is.
-- - Agent.Aggregator: `Aggregator` of aggregator.rs, a double buffer of statistics by cgroup.
-- - Agent.Sampler: `Sampler` of memory_sampler.rs, which feeds the aggregator, and
--   `sample_and_flush` of main.rs; Files is what it reads in a cgroup directory.
-- - Agent.Loop: the event loop of main.rs, an arm of its `select!` at a time, over the cache, the
--   aggregator and the sampler. It ends on a signal, with a flush, or without one on an error of the
--   ring's descriptor or when a task handle that is awaited again panics.
-- - Agent.Output: the retry queue of output.rs, where a batch is enqueued (`enqueue_batch_json`)
--   and posted until an answer decides (`post_until_decided`, the inner loop of
--   `init_retry_worker`).
-- - Agent.Pipeline: the way of a batch through output.rs and wal/ as a step relation: the main loop
--   enqueues, the worker receives and posts, the writer thread commits a group, the drainer replays
--   a frame, in any order. A group commit holds the lock of the store. The code takes it twice in a
--   replay, for the peek and for the commit; here no write falls between the two, where the cap
--   could count as dropped a frame that is being sent.
-- - Wal: the log of wal/, to which the retry queue spills. Segment is the codec of segment.rs,
--   Store is `WalInner` of mod.rs with the files of its directory (State is its data, Writing the
--   way of `append`, Replaying that of `peek_next` and `commit_pending`), Circuit the gateway's
--   state in mod.rs, Recovery is recovery.rs, Writer a round of the writer thread of writer.rs, and
--   Drainer the replay into the retry queue of drainer.rs.
-- - Ebpf: the tracepoint of statix-ebpf/src/main.rs with its maps, and the drops monitor of
--   loader.rs.
--
-- The gateway (statix-gateway/src):
-- - Gateway.Ingest: the route of routes/ingest.rs, which puts rows into a channel, and the probes
--   of main.rs.
-- - Gateway.Writer: clickhouse_writer.rs, which takes the rows out in batches and retries inserts:
--   Batches is the coalescing, Retries the inserts, Drain the last drain and Task the whole task, on
--   a channel that closes after its rows. In the program a sender stays in the depth sampler of
--   main.rs, so that the shutdown ends by its time limit.
-- - Gateway.Dashboard: the read side, routes/dashboard: Cache and Limiter of cache.rs; Query for the
--   normalized question of mod.rs, the enumerations of sql.rs and the cutoff of routes/query.rs;
--   Sql for the text of sql.rs, State and Health for the two answers, and Handlers for the routes
--   with their guard and caches.
-- The records of statix-wire/src/lib.rs stand in Agent.Aggregator and Gateway.Writer. Config is
-- statix-infra/src/env.rs and the settings of both sides.
--
-- State is passed explicitly: a method that changes `self` returns the new record. What the
-- system, the clock, the network or another thread answers is an argument: `Os`, `Attempt` and
-- `Inspection` for calls on files, `ReadCall` for the reads of a file, which may be short,
-- interrupted or failing, `Answer` and `Insert` for the gateway and ClickHouse. The checksum of a
-- frame is the parameter `hash`. Bytes are numbers, numbers are unbounded unless the code relies on
-- their width, and then the wrap or the saturation is written out. Maps are association lists.
--
-- Wal.Store.Layout states what the fields and files of the log stand for, a queue of frames
-- (`Represents`), and the results on the log are about that queue. An append that fails is followed
-- by a repair, whose `set_len` and seek are taken to succeed, and a file that is dropped is taken to
-- be removed: the source ignores these errors.
--
-- Fuel: `peek_rounds` collects a segment in each round, so one more than there are segments is
-- enough; `walk_frames` reads a frame of at least 17 bytes in each round, so the length of the file
-- is enough; the drainer's rounds are bounded by the room in the retry queue, the writer's
-- task by the rows in the channel, and its last drain by twice the rows in the channel and the rows
-- of the batch. Each bound is proved.
--
-- Not modelled: the loading of the eBPF program, the Kubernetes client, the answers of ClickHouse,
-- HTTP and JSON, metrics and logs, which are calls of libraries or of the system; the start-up of
-- the two programs, which calls the parts in turn; sleeps, timers and jitter, which only delay; and
-- the interleaving of threads within a critical section. Floating-point numbers are parameters.
pub mod Prelude
pub mod Wal
pub mod Agent
pub mod Ebpf
pub mod Gateway
pub mod Config
