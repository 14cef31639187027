-- ===== src/Lib.antt =====
-- Library of Context: a local context cache that keeps conversation events and records, indexes the
-- events through an outbox, and builds bounded prompts from them.
--
-- A caller appends events to a thread (context_cache/store.py). Each append writes the event, the
-- thread's head and a row of the outbox in one transaction. Workers claim rows of the outbox, index
-- the events and complete, fail or release their claims. Each process keeps the recent events of
-- the threads in use in rings (rings.py, thread_state.py), and other values in a memory cache
-- (ram.py). Prompts take the newest events that fit a token budget (text_budget.py) and records
-- that the caller's scopes allow (scopes.py), as escaped markup (context_markup.py). The records
-- of a thread stand on its desk (swapper.py), which is refreshed for a prompt (prompt_builder.py) and,
-- if asked, periodically (scheduler.py). The workers of indexing.py take the claims through a queue.
--
-- Files, with the code under context_cache/ that each models:
--   Prelude   names of the libraries, Boolean tests, lists, equality, results that may be exceptions
--   Dict      Python's dict, OrderedDict and set
--   Models    models.py: strings, metadata, events
--   Text      text_budget.py and `estimate_tokens` of embeddings.py
--   Ring      rings.py: `RecentEventRing`
--   Queue     rings.py: `UniqueWorkQueue`, with any number of threads
--   Ram       ram.py: `ByteLRU`
--   Scopes    scopes.py, and `_scope_predicate` of store.py
--   Store     store.py: Tables has the rows; Records, Sources, Events, Leasing and Outbox the methods; Steps
--             the transactions that change the tables; Serial, Leases, Claims, Invariant, Completion,
--             Appends and the Validity files what each operation does to them
--   Gate      concurrency.py: `ReadWriteGate`, with any number of threads: Exclusion who is inside,
--             Wakeups who sleeps and is notified
--   Scheduler scheduler.py: `DeskScheduler`, with its coordinator and any number of workers
--   Swapper   swapper.py: Packing fills a desk from the search hits, Desks keeps the desks of all
--             threads, Steps has what is done to them under the lock, Refresh a refresh that runs alone;
--             Trims and Stepwise carry a relation through all steps
--   Prompt    prompt_builder.py: `GovernedPromptBuilder`; its theorems take what a refresh of the desk
--             answers as a parameter, and Prompt/Desk has the refresh of Swapper that it stands for
--   Indexing  indexing.py: the scans and the work of `OutboxIndexer` on the outbox of Store, where
--             the preparation of a record may end with any exception
--   Governor  governor.py: `LibraryContextGovernor` on one thread, over Store, Ring, Indexing and Prompt
--   Registry  thread_state.py: `ThreadStateRegistry`, with the rings that it fills from the store
--   Markup    context_markup.py
--   Tests     the theorems at concrete inputs
--
-- A method has the name it has in the code. A string is the list of its code points. Times, sizes
-- and token counts are natural numbers: a time counts ticks of which a second has a million, and an
-- importance counts thousandths. What the code reads from the clock
-- or from `uuid4` is an argument. A method that holds one lock or runs one transaction is one step;
-- a call that raises returns no state, as its transaction is rolled back; what a refresh without room
-- has trimmed from the desks before it raises is a step of its own. Loops are recursion on
-- the list they consume, except for four with fuel: `pages`, the loop of
-- `iter_thread_events_descending`, has one unit for each page, and Store/Pages says how much is enough;
-- `fit_text`, the binary search of `_pack_hits`, has one for each character of the text, of which each
-- round rules out one at least; `make_room` and `evict_desks` of Swapper have one for each key, of which
-- each round removes one. What `_prepare_record`, `retrieve` and `get` of the engine answer, and how
-- `:.3f` and `:.6f` print, are parameters. A failure is a step of the store only with a claim token, as
-- in every call of `fail_outbox_event` outside the tests.
--
-- Not modelled: the SQLite files, schema migrations, the full-text index, embeddings and vector
-- search, nested JSON values, the two methods of the swapper that join its steps with those of the
-- scheduler into a periodic refresh, `flush` and `close` of the indexer, sessions, the engine, and all
-- network, command-line and protocol code.
pub mod Prelude
pub mod Dict
pub mod Models
pub mod Text
pub mod Ring
pub mod Queue
pub mod Ram
pub mod Scopes
pub mod Store
pub mod Gate
pub mod Scheduler
pub mod Swapper
pub mod Prompt
pub mod Indexing
pub mod Governor
pub mod Registry
pub mod Markup
mod Tests
