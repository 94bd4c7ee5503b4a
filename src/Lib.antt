-- ===== src/Lib.antt =====
-- A verification library for the OPC event bridge, the Python service in
-- patches/event-bridge/opc_bridge that watches the issues and runs of a Paperclip board, announces
-- what happens to them through the `buzz` command, and enforces the operator's policies on the agents.
--
-- The parts, the files that model them, and how they meet:
--
--   Store    opc_bridge/store.py. The sqlite database as a record of tables, a table as the list of
--            its rows (Base/Table: select, insert, upsert and update by key). Store/Row has the
--            tables, Store/Outbox the events and deliveries, Store/Meta the cursor and what is known
--            of issues, Store/Policies policies, mandates and used authorizations, Store/Control the
--            states of tracks, agents and runs. A method is a function from the store to the store
--            and its answer; a plain INSERT on a taken key answers `none`.
--   Event    opc_bridge/events.py. The event, which change of an issue is one, its text and tags.
--   Policy   opc_bridge/policy.py. The resolver `effective` and `check`, over the rows of the store.
--            Policy/Precedence, Policy/Choice and Policy/Effective prove what wins.
--   Deliver  opc_bridge/deliver.py. `run_once`, one pass over the outbox. A call of `buzz` adds to the
--            list of messages and is answered by a parameter, from the calls made so far, by an event
--            id, a BuzzError, or any other exception; an exception leaves the store as it was when
--            it was raised.
--   Health   opc_bridge/health.py. The state of a run (`classify`), its alerts (`_apply`, `_emit`),
--            which go to the outbox, and the tick over the live runs (Health/Watch).
--   Label    opc_bridge/labels.py. The track of a ticket.
--   Config   opc_bridge/config.py. The settings that these parts read.
--   Control  opc_bridge/control.py. Control/Auth: `verify`, over what the channel answers.
--            Control/Grants: mandates, overrides and revocations. Control/Agents, Control/Service
--            and Control/Allocation: `apply_allocation`, as a procedure on the store and the list of
--            the calls of Paperclip; a call is answered by a parameter from the calls made so far, or
--            raises, and an exception leaves what was done. Control/Runs, Control/Frame and
--            Control/Steps carry a property through it; Control/Reconcile is `reconcile_lock`;
--            Control/Below has what the commands do to the priorities, Control/Hard their step relation;
--            Control/Stop is `force_stop`, with Stop/Reported, Stop/Kept and Stop/Confined for what it
--            answers, keeps and touches.
--   Adaptive opc_bridge/adaptive.py. The measured split, the step that answers a drift
--            (Adaptive/Step), and the timer of the drift at the end of `tick` (Adaptive/Drift). A
--            share is a fraction of whole seconds; the source compares floats.
--   Poller   opc_bridge/poller.py. The state of the poller is the database, its caches, the calls of
--            Paperclip so far and the readings of the clock; a method is a procedure that may raise
--            (Base/Proc). Poller/Labels, Poller/Pattern (the regular expressions), Poller/Origin,
--            Poller/Observe, Poller/Sweep and Poller/Recover follow the methods in their order.
--            Poller/Keeps, Poller/Passes and Poller/Entries carry any property of the database
--            through them, which Poller/Outbox, Poller/Cursor, Poller/Once and Poller/Missed use. A
--            set of labels is taken in the order of the list it is made from.
--   Routes   opc_bridge/routes.py. A mutation is a procedure on the database and the two lists of calls
--            that go out (Routes/Reads has the reads). Routes/Owned has what a route needs of the
--            owner, Routes/Wired the table of the routes behind the door of the API.
--   Api      opc_bridge/api.py. The door: the path, the key, and the dispatch over a table of
--            handlers. `urlparse`, the read of the schema version and `json.dumps` are parameters that
--            may raise. The JSON body is a record of the fields that the routes read.
--   Memory   patches/hermes/memory_tencentdb: ingress.py and ingress_log.py (patches/buzz has the same
--            files). Memory/Ingress is `project` over a JSON value, Memory/Trusted what it lets in.
--            Memory/Shards is `sweep` over the names of the directory, Memory/Counted its summary.
--   Base     What the files share: lists, order, a sort, texts, integers, tables.
--
-- The loops of the source run over lists and are structural recursion here; no function needs fuel
-- (the twenty looks of `_wait_settled` are the source's own bound).
--
-- What the models leave out. Times are whole seconds (or hours, where the setting says so) on the
-- natural numbers, and the numbers of a policy are integers; the source has floats. The rows that
-- an ORDER BY ties come in the order of insertion. Texts are compared by code point, as sqlite and
-- Python do. The payload of an event is kept as a record and the value of a policy as a JSON value,
-- not as text. The audit's own wall-clock stamp, the log and the sleeps are left out. What
-- `datetime`, SHA-256, the `buzz` command and the Paperclip service answer is a parameter. Not
-- modelled at all: the
-- start of the tick of adaptive.py, the socket of the HTTP server, the command line,
-- the wiring of the threads, the two clients, and the rest of the memory plugin under patches/hermes
-- and patches/buzz, which is a copy of another project's provider.
pub mod Base
pub mod Config
pub mod Event
pub mod Policy
pub mod Store
pub mod Deliver
pub mod Health
pub mod Label
pub mod Control
pub mod Adaptive
pub mod Poller
pub mod Api
pub mod Memory
pub mod Routes
pub mod Tests
