-- ===== src/Lib.antt =====
-- The verification library of lucy, an assistant that runs tools, scheduled and background work on the
-- user's machine. The parts that decide what may happen, and when, are modelled: the gate through which
-- tool calls are approved, the signal that stops them and the paths that file tools may touch
-- (crates/lucy-core), the devices that may talk to the gateway and the runtime that it loads
-- (crates/lucy-gateway), the schedules, their tasks and the background jobs (crates/lucy-scheduler), the
-- loop of decisions and tool calls that works on a goal, and the agent loop that plans objectives and
-- checks them on the page (crates/lucy-runtime), the compaction of a session's history (crates/lucy-adk), the user's tasks, reminders and watched pages
-- (crates/lucy-tasks), what lucy remembers, where it comes from and what of it is injected into a prompt
-- (crates/lucy-knowledge), the editor of pages (crates/lucy-spaces), and the providers and models that
-- the settings choose (crates/lucy-config).
--
-- How the parts meet. The agent asks `ApprovalGate::needs_approval` before a tool call and waits in
-- `ask_cancellable` for `resolve`, which the interfaces and the gateway's devices call, or for the stop
-- signal. The scheduler computes with `CronExpression::next_after` when a task is due, runs the goals of
-- due tasks in `run_pending`, and starts background jobs on the executor. The reminders read the task
-- store, and compaction shortens the history that the agent sends to its model. The ReAct loop takes the
-- gate of Core/Approval as it stands at each tick, and so does each call of the fast lane. The agent loop
-- reads its planner's replies into objectives, whose probes pass Agent/Probe before a page evaluates them. The gateway loads one runtime for all its requests.
-- The knowledge store classifies what it is told by Knowledge/Provenance before it keeps it.
--
-- Files and code:
--   Prelude, Prelude/*: what the modules share: tests on numbers, lists, `Result`, and `Maps`, the map
--     that stands for HashMap.
--   Text, Text/*: strings as lists of code points, with the functions of `str` that the code calls;
--     Decimal is `u32` parsing and printing. Whitespace is that of Unicode, digits those of ASCII,
--     and lower case is that of ASCII letters and the Kelvin sign.
--   Core/Interrupt: `InterruptSignal` of crates/lucy-core/src/lib.rs, one atomic operation at a time.
--     `fire` is fire_first and fire_second, `reset_if_epoch` is reset_step, `reset` is clear_flag. `fired` is a ghost count.
--   Core/Approval: `ApprovalGate` of the same file. A one-shot channel is its number; Prompts has the
--     uses of the gate by other tasks, Answers the two waiting functions.
--   Core/Truncate: `truncate_str` and `truncate_tool_output` of the same file.
--   Config, Config/*: crates/lucy-config/src/lib.rs. Config has the tiers and the endpoint, with env::var
--     a parameter; Providers the providers and the keys of models, Tiers, Selection and Fresh what holds
--     of them, and Keys which keys name a provider.
--   Core/Paths: `resolve_path_checked` of the same file. The file system is the record FileSystem, and a
--     path its components, the last one first. Within is about what is resolved.
--   Gateway/Auth: `DeviceStore` of crates/lucy-gateway/src/auth.rs. SHA-256 is the parameter
--     hash_token; random texts and the clock are arguments.
--   Scheduler/Cron: crates/lucy-scheduler/src/cron.rs. Parse is `CronField::parse` with a function per
--     form of a field, Every `parse_every`, Expression `CronExpression::parse` and `parse_named`,
--     Parse/Bounds and Parse/Shape what a parsed field is, Display the two `Display` implementations, Next `next_after` over the record Chrono, which holds
--     what is used of the crate chrono.
--   Scheduler/Executor: crates/lucy-scheduler/src/executor.rs. A step is one critical section of the
--     job table, or the taking of a permit; `spawn` is request, acquire and insert, and its task start
--     and finish. An abort takes effect in the step reap. Track carries a fact about one job through
--     a run, Cancel is `cancel` with its answer.
--   Scheduler/Registry: `Scheduler` of crates/lucy-scheduler/src/lib.rs. `run_pending` is the actions
--     begins and finishes, with any other calls between; what the delivery answers is only logged.
--     Cron/Minutes is a calendar for the tests.
--   Scheduler/Delivery: `DeliveryRouter` of crates/lucy-scheduler/src/delivery.rs, with its two senders.
--   Adk/Compaction: crates/lucy-adk/src/compaction.rs. JSON values are a parameter, the model that
--     writes the summary is a function that may fail.
--   Tasks/Store: crates/lucy-tasks/src/lib.rs, each SQL statement as a function on the list of rows.
--   Tasks/Nudge: `TaskNudge::nudges` of crates/lucy-tasks/src/nudge.rs.
--   Tasks/Diff: `compute_diff` of crates/lucy-tasks/src/watch.rs. The similarity of lines is compared in
--     whole numbers in place of f64.
--   Gateway/Host: crates/lucy-gateway/src/host.rs. `ensure` is look, enter and finish_build, cut where it
--     waits; `reap_if_idle` is may_reap and take_runtime, and `unload` is take_runtime.
--   Runtime/Observation: `completion_check` of crates/lucy-runtime/src/observation.rs.
--   Runtime/React: crates/lucy-runtime/src/react.rs. The record Env answers, by the tick, for the model,
--     the tools, the page, the user and the stop signal; `drive` gets what follows a round as an
--     argument. A reply of the model is the decision that is read from it. Calls has the parts of a
--     round, Loop the rounds; Flows and Invariant carry what holds through a run, Ends has what it comes
--     to.
--   Runtime/Json: what the runtime asks of serde_json's values, a parameter.
--   Runtime/Lane: crates/lucy-runtime/src/fast_perception.rs. Call is `call_fast` and `act`, Reply the
--     reading of replies, Anchor `anchor_to_visible_name`, Wait `settle_slices` and `wait_for`, Sites the
--     destination of a goal. Unicode's table of `char::is_alphanumeric` is an argument.
--   Runtime/Agent: crates/lucy-runtime/src/agent_loop.rs. Probe is `sanitize_probe`, Objectives
--     `parse_objectives`, Pursue `pursue_with_origin`, Plan the slow calls and the cache of plans, Drive the
--     rounds, the final check and `run_agent_loop_with`. The record Env answers for the page and the stop
--     signal by the tick; `drive`'s cursor is where the list of objectives is cut in two. Pursue/Evidence,
--     Pursue/Left and Pursue/Ends carry what holds through an objective, Drive/Rounds through the rounds;
--     Drive/Early is about a probe that is true too early, Drive/Cached about a plan that is kept.
--   Knowledge/Provenance: crates/lucy-knowledge/src/provenance.rs.
--   Knowledge/Slugs, Files, Store, Recall, Rebuild: crates/lucy-knowledge/src/store.rs by parts, with
--     `promote_recalled` of capture.rs: the text helpers, the topic files, the writing of rows and files,
--     the reading of rows, and `reindex`. SQLite is the record Ranking where it orders rows, the clock is
--     an argument, and each statement and each write succeeds. Digest is what a prompt gets. History runs the operations in sequence.
--   Text/Bytes: strings by their byte offsets, where an offset within a character has no answer.
--   Spaces/Editor: crates/lucy-spaces/src/editor.rs; no answer is a panic. Commands has the slash
--     commands, Timeline what undo and redo are steps of, Cursor and Safe the texts of ASCII.
--
-- Bounds and fuel. The search of next_after has the fuel of one step for each minute of five years and
-- one more; each step adds a minute and the limit is five years on, so that it is not used up. The
-- loops of compute_diff have the fuel of one step for each line, and each step takes a line. The
-- ReAct loop has the fuel of one round for each decision that the budget allows and one more: each round
-- counts a decision or ends. The rounds of the agent loop have the fuel of one round for each objective of the
-- plan, seven for each replan that the budget allows, and one more: a replan brings at most six objectives.
-- The search of `ensure_id` has the fuel of one
-- name for each id in use. `sanitize` has fuel for each character, and each function that it unwraps is shorter. All other recursion is structural. u32 values are bounded where they are parsed, the epoch of the signal wraps
-- at 2^64, and the times of the gateway are cut off at the largest u64.
--
-- Not modelled: the turns of the runtime, the parsing of snapshots and of the replies of the ReAct loop's
-- model, the launch of a browser, the agent loop of crates/lucy-agent, the terminal and mobile interfaces, the tools, speech, the rest of the configuration
-- and the daemon; they are mostly I/O around services and libraries. Of the knowledge store, the
-- extraction of claims, the reading of a whole topic and the statistics are left out. Of the modelled crates, files
-- beyond their texts, SQL itself, sockets, logging and the scheduling of tasks by tokio are left out: the
-- models take any order of steps. Locks are never poisoned.
pub mod Prelude
pub mod Text
pub mod Adk
pub mod Config
pub mod Core
pub mod Gateway
pub mod Knowledge
pub mod Runtime
pub mod Scheduler
pub mod Spaces
pub mod Tasks
