-- ===== src/Lib.antt =====
-- The backend of an urban farming service (app/), which keeps garden requests, properties,
-- inspections, installations, crop batches and workflows in PostgreSQL. A request lives through a
-- chain of statuses: an administrator schedules a visit, an inspector submits a scored assessment,
-- the administrator approves it, the garden is installed, crops are allocated and planted, and the
-- garden goes live. Each of these steps is one transaction of
-- app/infrastructure/postgres_gateway.py, which an endpoint of app/routers calls after its own
-- reads.
--
-- Db models the database as a record of tables, each a list of rows, and a transaction as a
-- function that gives a result and the new database, or an error and none (rolled back).
-- Transactions run one at a time, since each locks the rows it reads; a handler's own reads are
-- made on a database that may have changed when its transaction runs. Db/Rows and Db/Status are
-- the columns and enumerations of database/supabase_migrations that the code names; a UUID, an
-- instant and a day are numbers, since they are only compared. Json models jsonb values and
-- Python's dictionary operations. Prelude holds what the modules share. The clock is an argument
-- of each operation.
--
-- Gateway models the transactions: Planting (complete_garden_planting), Installing
-- (complete_garden_installation), Allocating (complete_garden_allocation, with the loop over the
-- crops in Allocating/Batches), Advancing (update_garden_request_workflow), Scheduling
-- (schedule_garden_request_inspection), Submitting (submit_inspection_for_approval), Starting
-- (start_inspection_report), Converting (convert_assessment_lead), with the statements that they
-- share in Tables and the loop over stages in Stages. Requests/Status models
-- update_garden_request_status of app/routers/gardens.py, Requests/Lifecycle the moves of a
-- request's status as a relation, and Requests/Calls the five calls that move requests by it, made
-- in any order; the generic data endpoint, which can write a status without a check (Data), is not
-- among them. Inspections models app/services/inspection_scoring.py and
-- app/services/inspection_evidence.py.
--
-- Auth models app/infrastructure/auth_store.py (Auth/Store: accounts in Accounts, refresh tokens
-- in Tokens), app/core/tokens.py (Auth/Tokens), app/core/security.py (Auth/Identity) and
-- app/routers/auth.py: the endpoints of the backend's own mode in Auth/Sessions and
-- Auth/Endpoints, those with a hosted service in Auth/Endpoints/Entry and Auth/Upstream, and the
-- requests one after another in Auth/Requests. A handler there is several transactions, so it
-- leaves a store also where it raises. PyJWT, bcrypt, pydantic's check of an address, the mailer,
-- Google and the hosted service are parameters (Auth/App, Auth/Tokens); a request is handled at
-- one instant, instants being microseconds. Auth/Store/Views is the abstract view of the store,
-- the set of open sessions, and Auth/Store/Steps the step relation on it, indexed by what a
-- request does where it succeeds, that the requests refine. Addresses are compared as ASCII.
--
-- Data models app/routers/data.py (Data/Router) and the generic statements of
-- app/infrastructure/postgres_gateway.py with the lists of app/infrastructure/data_gateway.py
-- (Data/Statements, Data/Tables). A statement is a value: its table, columns, conditions and
-- conflict clause. Push models app/services/mobile_push.py.
--
-- Every function is structurally recursive but the loop of chunked (Push), which runs for a number
-- of rounds; the values are rounds enough, as chunked-IsSplit shows. What the database driver
-- binds to a text parameter is a parameter (bind_text of Scheduling). A dictionary of stages that
-- the source builds from rows keeps the last row of a key, the model finds the first: the schema
-- has one row per key. A crop batch that the source inserts is always returned, so its check for a
-- missing row never fails.
--
-- Not modelled: the Supabase mode of the gateway, the execution of the generic statements and
-- their conversion of values, billing, e-mail and the other routers, which are I/O over these
-- parts or over external services; the schema's triggers.
pub mod Prelude
pub mod Json
pub mod Db
pub mod Gateway
pub mod Requests
pub mod Inspections
pub mod Auth
pub mod Data
pub mod Push
