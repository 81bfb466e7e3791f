-- ===== src/Lib.antt =====
-- Verification of the core of resoto: the queue that hands tasks to workers, the handler of the subscribers
-- to actions and events, the tasks that run through their steps, and the queries of the graph, from the
-- commands of a command line on.
--
-- The parts and their files:
--
-- * resotocore/core/worker_task_queue.py, `WorkerTaskQueue`: WorkerQueue. `Data` has the state `Queue`
--   (worker_by_task_name, work_count, outstanding_tasks, unassigned_tasks, and the results of the futures
--   in `futures`), `Select` the choice of a worker, `Ops` one function per operation with the source's
--   name (`add_task` is `__add_task`, `retry_tasks` is `__retry_tasks`, `detach` is the `finally` block of
--   `attach`), `Run` the runs: lists of calls, since each operation holds the lock. The other files have
--   the proofs: `WellFormed`, `NoLoss`, `Answers`, `Futures`, `Deadlines`, `Detach`, `Exclusive`,
--   `Counters`, `Subscribed`.
-- * resotocore/core/task/subscribers.py and task/model.py, `SubscriptionHandler` and `Subscriber`:
--   Subscriptions. `Data` has subscribers, `Store` the interface of the subscriber database, `Handler`
--   the operations over any such database. `Changes`, `Index` and `Cleaner` have the proofs.
-- * resotocore/core/task/task_description.py and the messages of core/message_bus.py: Tasks. `Messages`
--   and `Description` have the data, `Machine` the interface of the state machine, `Running` the states
--   of a task and when a step is done, `Ops` the operations of `RunningTask`, `Life` the calls that a
--   task gets. Of task/task_handler.py, `Overdue` has what `check_overdue_tasks` does to one task,
--   `Starting` how the handler starts and deletes tasks, and `Routing` what a message starts and which
--   tasks it reaches. `Progress`, `Life`, `Perform` and `Pending` have the proofs.
-- * resotocore/core/message_bus.py, `MessageBus`: MessageBus. `Ops` has the tables of listeners and the
--   operations (`subscribe` is the code up to the `yield`, `unsubscribe` its `finally` block), `Delivery`
--   and `Leaving` have the proofs.
-- * resotocore/core/query/model.py, `Query`: Query. `Names` has absolute and relative names, `Data` the terms, parts
--   and queries, `Variables` `change_variable`, `Rewrite` `rewrite_for_ancestors_descendants` of a part
--   (`walk_term` and the filters before and after a merge) and `Rewrite/Whole` of a query, with
--   `on_section`, `Build` the operations that build a query and `Build/Combine` `combine`, `Predicates`
--   `predicates` and the merge names, `Print` the texts, `FromJson` the
--   reading of terms, `Analytics` the counters, `Property` the classes that write terms. `Meaning` says what a term says of a node, and
--   `Meaning/Run` what a query without merges and tags makes of a list of nodes, in the order of work of
--   resotocore/core/db/arango_query.py. The other files have the proofs.
-- * resotocore/core/cli/cli.py, `create_query` and `combine_query_parts`, and the arguments of the
--   commands in cli/command.py: Cli.
-- * resotocore/core/util.py, the values at paths of JSON objects: Paths.
-- * Base, Dict and Json: shared tests, lists, integers, Python's dict in insertion order, JSON values.
--
-- The task handler asks the subscription handler who waits for an action (`subs`, the dict that
-- `subscribers_by_event` returns at the time of a call), and a running task compares that with the
-- messages it has received. The messages come by the message bus, whose table of active listeners the
-- subscription handler reads (`connected`). A command line makes one query of its first commands: each of
-- them builds on the query, or is combined with it, and the whole is then made absolute and rewritten.
--
-- Times are natural numbers, in seconds, and each operation takes the reading of the clock. Counters
-- that the code lowers without a test are integers. A set that is only tested for emptiness is a list.
-- `move_to_next_state` loops as long as the state changes: its fuel is the number of states, which is
-- enough since the states form a chain.
--
-- An AttributeError is `none`. Sets of names are lists, in the order in which their elements come in. A term
-- that the code leaves open to any value, such as the arguments of a predicate, is a JSON value.
--
-- Parameters: the subscriber database (`SubscriberDb`, with what reading back gives after an update and a
-- delete; `list_db` is one), the `transitions` package (`Machine`, with the documented choice of the first
-- transition whose condition holds; `reference_machine` is one), the text of a date (`utc_str`), what
-- `replace_placeholder` makes of a command (`text_of`), the texts of values (`to_js_str`, by the package
-- jsons, and `formatted`, Python's `str`), the database that runs a query (`Database`), the equality of
-- triggers (`same`), and the parsers of arguments and queries (`Parsers`).
-- What runs while a call waits: an operation of the worker queue holds the lock and is one step. Where
-- `start_task` waits for the database, `others` is what other calls do to the tables in the meantime. The
-- operations on subscribers are one step each, with the write to the database and the reload, though the
-- source takes no lock there: what overlapping operations do is not modelled.
-- `delivered` lists what is put into the asyncio queues of the workers, which are taken to have room.
-- Logging and what is written to the database of tasks are left out, since nothing that is modelled reads
-- them. The condition of a transition finds its state by name, where the source holds the state itself: the
-- same if no two states of a task have the same name. Not modelled are the parser of queries, the templates, the translation of queries to the language
-- of the database, the flows of commands, the graph, the web interface, the other processes and the
-- plugins.
pub mod Base
pub mod Dict
pub mod Json
pub mod Paths
pub mod WorkerQueue
pub mod Subscriptions
pub mod Tasks
pub mod MessageBus
pub mod Query
pub mod Cli
