-- ===== src/Lib.antt =====
-- The router of backplaned-agents, the pending replies of its SDK, and the session locks, the
-- chunking of texts and the plan loop of its agents.
--
-- Agents hold a socket to the router (bp_router/) and send it frames. A NewTask frame becomes a row of
-- the table of tasks; the rules decide whether the caller may call the destination; the executing agent
-- reports a Result, or hands the task on; users, disconnects and deadlines end tasks as well. Every
-- change of a task's state goes through one function, and every frame to an agent through another.
--
-- The files and what they model, with the source's names where they are not those of the definitions:
--   Principals   bp_router/principals.py: levels of users and the levels that rules ask for.
--   Acl          bp_router/acl.py: Grammar has the patterns, Rules the rules and `_matches`, Eval
--                `is_allowed` with its trace (its loop is `walk`), `is_allowed_for` (`decide`),
--                `compute_callable_user_levels`, `is_visible` and `deployment_levels`, and Labels
--                `_bound_metric_label`.
--   State        bp_router/state.py: `_ALLOWED`, `task_transition` and `_insert_event`.
--   Lru          bp_router/lru_cache.py: `BoundedLRUDict`, the oldest entry first.
--   Acks         bp_router/correlation.py: `PendingAcks` and one round of its reaper.
--   Delivery     bp_router/delivery.py: `deliver_frame`, cut at its `await`, and `fanout_frame`.
--   Tasks        bp_router/tasks.py on top of State and Delivery, with the queries of
--                bp_router/db/queries.py that it makes: App is the state and the helpers, Complete
--                `complete_task`, Cancel `cancel_task` with `list_descendants`, Fail `fail_task`,
--                `fail_inflight_for_agent` and `_sweep_once`, Replay `_idempotent_admit_result`,
--                Checks and Delegate `_admit_delegation`, cut at its `await`.
--   Admit        bp_router/tasks.py `admit_task` for a new task: Queries has the queries it makes,
--                Guards its checks, Admission the three parts up to the `await` for the ack
--                (`check_admission`, `persist_task`, `open_task`), Closing what follows it
--                (`close_admission`). Admissible says when a request gets through, Steps and Lifecycle
--                put the calls of the router together.
--   RateLimit    bp_router/security/rate_limit.py: `TokenBucket.try_consume` without Redis, on Lru.
--   Sockets      bp_router/ws_hub.py: `SocketRegistry`.
--   Catalog      bp_router/visibility.py: `available_destinations`, on Acl.
--   Plan         bp_agents/agents/deep_reasoning/plan.py: `run_plan`.
--   Correlation  bp_sdk/correlation.py: `PendingMap` and one round of its reaper.
--   SessionLock  bp_agents/session_lock.py: the counted locks of a process, and the lock in Redis as
--                steps of all instances.
--   UrlValidation  bp_router/url_validation.py: `validate_base_url` and `parse_allowed_hosts`.
--   Chunking     bp_agents/common/chunking.py: `_split_recursive` and `chunk_markdown`.
--   Dispatch     bp_router/dispatch.py: `_handle_result`, `_handle_progress`, `_handle_cancel` and
--                `_handle_ack`, on Tasks.
--   FileStore    bp_router/file_store.py: the names of stored files and `_allocate_name`, with the
--                queries that it makes.
--   Prelude      what the files share: the native numbers and their tests, texts as lists of character
--                codes, dicts as association lists in insertion order.
-- The other files below these hold the theorems, and the files named Examples, Tasks/Handing and
-- Admit/Witnesses apply them to concrete values.
--
-- A database is a list of rows and a list of events, and a transaction is a step from one database to
-- the next: the row lock that the code takes is the atomicity of that step. An `await` at which other
-- handlers can run cuts a call into two functions, the second of which starts in any later state.
-- Times are whole numbers of the unit that the caller uses. A text is a list of character codes.
--
-- Bounds: the recursive query for descendants makes 64 rounds behind its first level, as its depth
-- counter allows; the sweep takes 100 rows; the plan loop makes `plan_max_iters` rounds, which is what
-- bounds it in the code too; the query for the chain of a new task's parents takes 64 rows at most, and
-- the one that authorises a Cancel the task and 64 rows above it, as their depth counters allow. The
-- loops of Chunking have as many rounds as the text has characters, and each makes it shorter; an
-- allocation tries 1000 names, as the code does. No other function
-- needs a bound: all are recursive on lists.
--
-- Not modelled: the purge of sessions with their tasks and the renaming of evicted agents (the
-- sequences of calls that the results on Admit speak of have neither), the garbage collection loops of
-- bp_router/tasks.py, the handshake and the loops of a socket, the dispatch of LLM, file and list
-- frames, the Redis path of the rate limits, the HTTP API, the LLM service, the blob stores, settings
-- and metrics, the rest of the SDK, the agents other than the plan loop, the session locks and the
-- chunking, the admin console and the MCP bridge. Of the modelled functions the log lines, the
-- metrics, the audit rows, the connection pool and the trace, span and correlation ids of frames are
-- left out. What an LLM or a peer agent answers, which agents exist and which level a user has are
-- parameters, and so are jsonschema, urlparse, ipaddress, getaddrinfo and str.strip. `fail_task` does
-- not raise, so `_safe_fail` of `admit_task` needs no second way. The cancellation of a subtree and a
-- sweep are one step each, though the code makes one transaction per task; what a model answers in the
-- plan loop is a function of the state of the plan; an allocation of a file name writes into one
-- directory.
pub mod Prelude
pub mod Principals
pub mod Acl
pub mod State
pub mod Lru
pub mod Acks
pub mod Delivery
pub mod Tasks
pub mod RateLimit
pub mod Sockets
pub mod Catalog
pub mod Plan
pub mod Admit
pub mod Correlation
pub mod SessionLock
pub mod UrlValidation
pub mod Chunking
pub mod Dispatch
pub mod FileStore
