-- ===== src/Lib.antt =====
-- The Playerbot LLM sidecar (sidecar/src/playerbots_llm): a Python service that gives the bots of a game
-- server something to say, without ever spending more than a daily budget.
--
-- The worldserver sends one framed request at a time over a loopback socket (protocol.py). The service
-- (app.py) counts the tokens of the prompt, asks the ledger for a reservation, lets the provider generate,
-- settles the reported cost, and encodes an answer or stays silent. The ledger (ledger.py) decides with the
-- pure policy of budget.py, on tables that the store (store.py) shares with profiles, conversations, careers,
-- the ambient rate and the purge of deleted bots.
--
-- Where what is modelled:
--   Prelude    Boolean tests, lists over the native numbers, integers, text as code points, results and
--              transactions
--   Budget     budget.py. `Budget.Arithmetic` is Python's `decimal` as far as that file uses it, rounded to the
--              28 digits of its default context; `admit`, `reserve_floor_nano`, `token_cost_nano` and the rest
--              keep their names
--   Schema     `acquire_named_lock` and `utc_day` of schema.py; `Schema.Startup` is `ensure_schema`
--   Ledger     ledger.py. `Ledger.Tables` has the rows and the SQL statements, `Ledger` the methods of
--              `BudgetLedger`, each a transaction: an action on the tables that rolls back when it raises
--   Store      store.py, the methods of `SidecarStore`. A profile or a career decision is a row of its table; a
--              value that a column does not hold is refused, as in the strict mode of MySQL
--   Protocol   protocol.py: frames, requests, and the encoders with what they refuse; `Protocol.Requests` has
--              the models of the requests, their validators and the parsers
--   Provider   provider.py: usage, errors and their billing status; a provider is a record of functions
--   Generation generation.py: the gates on social replies, biographies, memories and career choices;
--              `Generation.Fences` and `Generation.Messages` are the user messages and their fences
--   Adapter    providers/anthropic.py: what becomes of an answer of the API, its usage and errors, and the trace
--   Service    app.py: `Service.Config` is `SidecarConfig`, `Service.Calls` what every request goes through,
--              `Service.Pipelines` and `Service.Chat` the handlers and `process_payload`, `Service.Bridge` the
--              declared kind and `handle_connection`
--   Examples   the theorems at concrete inputs
--
-- State and time. Money is whole nano-USD; a money column DECIMAL(12, 6) is a number of microdollars. An
-- instant is a number of seconds, a day its quotient by 86400. The database's row locks and the service's
-- generation lock make transactions and requests run one after another, so a run is a sequence of steps; the
-- steps of `Ledger.Runs` may interleave the reservations of any number of requests, and of several sidecars.
-- An action returns its result beside the new state, and an error is a value.
--
-- Fuel. `purge_loop` is given one turn more than there are intents and `serve_frames` one more than the stream
-- has bytes: a turn removes an intent, or reads four bytes at least. The digits of a number get its successor,
-- and `excess_digits` the number itself, since a division by ten makes a positive number smaller.
--
-- Arguments of the model, for code that is not the repository's: the random text of a public id, the clock, the
-- latency, what the Anthropic API returns, what MySQL makes of a CREATE statement, the readers of JSON and the
-- types of their fields, the Unicode database, case folding, and the search for a regular expression.
--
-- Not modelled: the pool of state.py and lost connections, `retire_superseded_locks`, the texts of the system
-- prompts of generation.py and its messages for ambient lines and career choices, the deadline that may cut a
-- request off between two steps, the purge worker, the reading of the configuration, the sockets and the
-- command line of app.py, the offline scripts, and the worldserver's half in C++.
pub mod Prelude
pub mod Budget
pub mod Schema
pub mod Ledger
pub mod Store
pub mod Protocol
pub mod Provider
pub mod Generation
pub mod Adapter
pub mod Service
pub mod Examples
