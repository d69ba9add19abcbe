-- ===== src/Lib.antt =====
-- A model of the core of SoyaOS, a runtime for agents, and the theorems about it.
--
-- The parts and how they meet. pkg/store is a contract of byte keys and byte values that the other
-- packages persist through: Store.antt has it as a record of operations and laws, which State and
-- Scheduler take as a section parameter and Store/Memory.antt fills. Keys made of several parts are
-- the composite keys of Store/Key.antt. pkg/state (State.antt) keeps the versioned entries of
-- stateful agents in such a store. pkg/runtime/gate.go (Runtime/Gate.antt) decides what an agent in
-- a sandbox may reach, on paths as path/filepath cleans them (Runtime/FilePath.antt). pkg/scheduler
-- starts jobs: cron expressions (cron.go, Scheduler.antt), the time wheel (scheduler.go,
-- Scheduler/Wheel.antt), the minutes missed while the process was down (Scheduler/Window.antt), the
-- idempotency keys (Scheduler/Dedup.antt) and the loading of jobs from the store into the wheel
-- (Scheduler/Hydrate.antt), these three from persist.go. pkg/mesh/relay forwards encrypted
-- datagrams between two parties that hold one signed token: frame.go (Relay/Frame.antt), token.go
-- (Relay/Token.antt) and the loop of server.go (Relay/Server.antt). pkg/mesh chooses the route to a
-- peer, of which such a relay is the last (pathselector.go, fallback.go: Mesh.antt). pkg/connectors cuts
-- a message to what its channel can show (degradation.go: Connectors.antt), and cmd/soyaos orders the
-- flags of a command line (flagorder.go: FlagOrder.antt).
-- pkg/store/bolt.go (Store/Bolt.antt) fills the contract of the store over the transactions of bbolt.
-- pkg/memory (Memory.antt) has two memories of an agent, in a process and in a store, which meet one
-- contract (Memory/Contract.antt), and a log of events (Memory/Episodic.antt). pkg/auth (Auth.antt)
-- issues and verifies API keys, and pkg/shortlink (ShortLink.antt) short links, both in a store.
-- pkg/kernel/indexed_table.go (Kernel/Table.antt, Kernel/Table/Build.antt) builds a table from the
-- answers of a language model under a configuration that pkg/soyapack/manifest.go validates
-- (Soyapack/IndexedTable.antt). The rest of pkg/kernel keeps agents by their model (kernel.go: Kernel/Agents.antt),
-- drives their handlers in two ways (Kernel/Chat.antt), keeps completions and the rows of workbooks in pkg/state
-- (state.go: Kernel/Rows.antt), calls the handlers of actions on such rows (actions.go: Kernel/Actions.antt) and has
-- drafts reviewed by a second model (action_review.go: Kernel/Review.antt). pkg/scope (Scope.antt) adds up samples of
-- usage in rows of a minute and moves them to a store (usage_aggregator.go: Scope/Usage.antt).
--
-- Names are the source's, in the spelling of this library: `BoltStore.CompareAndSwap` is
-- `compare_and_swap`, `applyMissedFire` is `apply_missed_fire`, one round of `Server.Serve` is
-- `serve`. A function of the source that runs into several cases of an error is a chain of small
-- functions by clauses on the results. A mutex, or a loop that owns its state, makes an operation
-- one step, so a concurrent use is a sequence of steps. A live callback of
-- the scheduler, which no lock guards, is two steps, between which others may come (Scheduler/Dedup/Attempts.antt). Bytes are lists of numbers; a time is a
-- count of nanoseconds; an int64 of the source is its bit pattern with the wrap-around written out,
-- where it can wrap.
--
-- Parameters, for code that is not in the repository: encoding/json and the text of a time
-- (`Codec`, `JobText`, `Workbook`), the calendar of a time (`Calendar`), HMAC-SHA256, random bytes, float64 and
-- the equality of IP addresses (`Outside`), the transactions of bbolt (`Bolt`), SHA-256, the
-- functions of Go's strings that read Unicode tables (`Unicode`), the answers of a language model, and
-- whether a wait is cut short, a write succeeds or an attempt of a dial connects.
--
-- Fuel: `put_uvarint` has one round for each unit of its argument and one more, which the proof
-- that a length is read back shows to be enough; `collect_matches` has one round for each minute of
-- the interval and two more, which `rounds_enough` shows to pass its end; `digits_into` has 20
-- rounds, the bytes of the source's buffer; `gather` and `choose` have one round more than the repairs
-- that a configuration allows, and `build-IsDefined` shows that they never run out; `rounds` of the
-- interleaving has one more than there are rows; `digits` has 11, the base-62 digits of a uint64.
-- `value` has two rounds for each token and one more, which the proof of `unique_iff` shows to be enough.
--
-- Not modelled: sockets, HTTP handlers, QUIC, the calls of language models, renderers, sandbox
-- providers and process start-up, which are input and output; and, so far, the hooks of the kernel,
-- the agents of Packs, row tokens and the rest of a manifest.
pub mod Prelude
pub mod Store
pub mod State
pub mod Runtime
pub mod Scheduler
pub mod Relay
pub mod Mesh
pub mod Connectors
pub mod FlagOrder
pub mod Memory
pub mod Soyapack
pub mod Kernel
pub mod Auth
pub mod ShortLink
pub mod Scope
