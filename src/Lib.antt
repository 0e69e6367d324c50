-- ===== src/Lib.antt =====
-- The evaluation platform: a web service that runs the items of a dataset through variants of a
-- language model, scores the answers and keeps the results, for users with accounts.
--
-- Parts and files. Paths are those of the repository.
--
--   RateLimit  backend/services/auth_rate_limit.py. Memory is the sliding window in memory, Redis the
--              counter in a Redis server, whose commands are the fields of an interface with the
--              documented behaviour as laws. Hits, Window and Waiting are on the window. Times are
--              natural numbers of microseconds.
--   Auth       Models: the tables of users, refresh sessions and account tokens
--              (backend/db/models.py), as lists of rows with unique indexes.
--              Sessions: backend/services/auth_sessions.py, under the same function names.
--              Tokens: backend/services/account_tokens.py.
--              Http: a handler as a function from the service's state to a response and a state; the
--              state that a handler has written stays written when it ends in an error.
--              Endpoints and Recovery: the handlers of backend/api/auth.py, with the limiter as an
--              interface; the SHA-256, Argon2 and JWT functions and `str.strip().lower()` are fields of
--              `Env`, and the clock and the random values of one request are its `Draw`.
--              AccessTokens: the tokens of backend/security.py around PyJWT, and the user of a request.
--   Evals      Models, Metrics, Provider and Runner: evals/models.py, evals/metrics.py,
--              evals/providers.py and evals/runner.py. Texts are lists of code points;
--              `str.lower` and `str.isspace` are parameters; floats are an interface without laws.
--              LiteLLM is a function from the number of the attempt to its outcome.
--   Runs       Execution: backend/services/run_execution.py as a machine of a worker and the row of its
--              run. One event is what happens between two awaits: the worker's queries, checks and
--              commits, a crash, a redelivery, and the UPDATE of the cancellation endpoint in
--              backend/api/runs.py, in any order. The worker writes a column only where its value
--              differs from its copy, as SQLAlchemy does.
--              Endpoints: the cancellation endpoint itself, with the steps that the worker makes
--              between its queries.
--   Workspace  the user's work. Models and Database: the other tables of backend/db/models.py with their
--              constraints, as one predicate that a commit tests. Schemas: the payloads of
--              backend/schemas.py. Ownership: backend/api/ownership.py. Crud: the endpoints of
--              backend/api/crud.py, and one request as a function on databases (`apply`). Runs: the
--              creation and the list of runs in backend/api/runs.py, and what the worker then loads
--              (Runs/Inputs). Credentials: backend/api/provider_credentials.py and, in Cipher,
--              backend/credential_security.py, with Fernet, JSON and the tester as parameters; a test
--              is told what other requests do while it waits for the provider. Import:
--              backend/dataset_import.py and the endpoint that stores a file. History: all these
--              requests one after the other. A table lists its rows in the order of their creation,
--              those of one import by id;
--              UUIDs are numbers; floats are texts that are only passed on.
--   Network    backend/network_security.py, with the ipaddress module, urlsplit and the resolver as
--              parameters.
--   Tasks      backend/services/task_manager.py: the registry of the tasks of one process as a machine.
--   Reports    backend/error_monitoring.py: what is taken out of an error report, over nested values.
--   Catalog    backend/services/model_catalog.py: the names of models, the discovery with its fallback
--              and the bounded cache (Names, Requests, Discovery, Cache), and the table of
--              backend/provider_catalog.py.
--   Common     what the parts share.
--
-- Fuel. The retry loop of the provider runs on `max_retries + 1` rounds; that this is enough is part of
-- what is shown of it. All other loops are structural.
--
-- Not modelled: log lines, metrics and traces; delivery of emails (the outbox records what is sent);
-- cookie attributes; two workers at once on one run; the details, filters and summaries of runs; the
-- lists of credentials and of their models; the schedulers; settings; the command line and the release
-- scripts; the frontend and the deployment; other discoveries while one awaits a loader; a rotation of a
-- refresh token between the query and the commit of a logout; cancellations in History.
pub mod Common
pub mod RateLimit
pub mod Auth
pub mod Evals
pub mod Runs
pub mod Catalog
pub mod Workspace
pub mod Network
pub mod Tasks
pub mod Reports
