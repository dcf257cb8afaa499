-- ===== src/Lib.antt =====
-- A model of the core of the slope-monitoring platform, and what holds of it.
--
-- The platform collects GNSS and acceleration data that devices of a mine site upload, serves each
-- device its configuration, lets an operator start and reset a blast command, and keeps models that
-- predict slope movement. The parts that are modelled, with the files of the repository:
--
--   Common, Errors   Boolean tests, lists, integers and Python's text operations; common/errors.py
--   Blast            the blast command. An operator starts or resets it on the base of a site
--                    (services/blast_service.py: Blast/Trigger), devices acknowledge it
--                    (services/device_config_service/trigger_ack_service.py: Blast/Ack), it expires
--                    by itself (blast_expiry.py and blast_timeout_reconciler.py of the same folder:
--                    Blast/Values, Blast/Expiry, and Blast/Reconcile for the pass over all bases),
--                    devices are served it in their configuration
--                    (config_repository.py: Blast/Config) and the operator sees its state
--                    (trigger_status of apps/api/routers/v1/blast.py: Blast/Status)
--   Upload           the upload of a file: the checks of its headers and its route
--                    (services/ingestion_service/csv_validator.py, protocol_router.py:
--                    Upload/Headers), the ledger of uploads and retained payloads
--                    (file_upload_repository.py: Upload/Ledger) and the handler upload_data
--                    (apps/api/routers/v1/ingest.py: Upload/Handler)
--   Registry         ml/registry/model_registry.py and model_factory.py
--   Split            ml/evaluation/cross_validation.py
--   Dataset          ml/domain/dataset_schema.py (Dataset/Schema, Dataset/Sample) and
--                    ml/pipeline/windowing/temporal_windowing.py (Dataset/Window)
--   Auth             accounts and sessions. common/security.py and apps/api/dependencies.py: tokens,
--                    roles and the guards of the routes (Auth/Tokens), with the JWT library a pair
--                    of arguments; services/auth_service/user_service.py: the table of users and the
--                    login (Auth/Accounts), with the hashing of passwords an argument;
--                    apps/api/routers/v1/auth.py and users.py: the routes that change a session or
--                    an account (Auth/Routes), with the check of a TOTP code an argument.
--                    Whether the trigger of the audit table takes an entry is an argument too.
--   Ppk              the experimental post-processing of raw observations. scripts/ppk_qa_worker.py:
--                    the UBX frames (Ppk/Bytes, Ppk/Rawx), the fingerprint of a job
--                    (Ppk/Fingerprint), the tables of jobs and solutions (Ppk/Jobs) and the loop of
--                    run_once over its windows (Ppk/Worker); scripts/ppk_qa_scheduler.py: the windows
--                    and rovers of a run (Ppk/Hours), the navigation file of a window (Ppk/Nav) and
--                    `run` itself (Ppk/Schedule); scripts/ppk_qa_backlog.py: the choice of the next
--                    windows (Ppk/Backlog). The three programs meet in the database: the backlog
--                    reads the hours of the solutions that the worker stored
--   Examples         concrete inputs on which the theorems are applied
--
-- State is passed explicitly: the tables of the blast command are the record Blast.Tables.Db, those
-- of the uploads Upload.Ledger.Ledger, the registry is Registry.Registry with a store of version
-- objects, since Python shares them. A function that may raise returns Errors.Result; a transaction
-- returns its new tables only in an `ok`, which is the rollback. Names of functions, tables and
-- fields are the source's, error texts are left out.
--
-- Time is a number of microseconds. SQL now() is the start of the transaction and clock_timestamp()
-- the time of its call, so a function that uses both takes both. JSON values are Blast.Values.Value,
-- where a float or a container is kept as what the program reads of it.
--
-- Parameters stand for code outside the repository: json.loads and float() on values, the SHA-256
-- digest, UTF-8 decoding, csv.reader, the loading of a torch checkpoint, the environment's default
-- configuration, and the floats of the dataset with their tests. The handler of uploads also takes
-- the parsers and the storing of parsed rows as arguments, with any outcome. Python's text operations
-- are defined for what the program does with them: `lower` and `upper` cover the letters that can
-- give the ASCII words compared with, and `int` reads ASCII digits. Three
-- functions run on fuel: the printing of a number, with one unit more than the number; the pass of
-- the reconciler, with one page more than there are rows (Blast.Laws.Ending); and the loop of the
-- PPK worker, whose fuel is a number of windows: as many as cover the time asked for are enough
-- (Ppk.Laws.Windows).
--
-- Statements of concurrent uploads interleave in Upload/Laws/Claims, where every SQL statement is one
-- step. The transactions of the blast command lock the trigger row, and are taken one at a time.
--
-- Of the PPK programs RTKLIB, gzip, base64, the digest, the clocks, the advisory lock, the outcome of a
-- download and that of the worker's process are parameters, with any answers.
--
-- Not modelled: the event lists of the operator's
-- view, the creation and listing of users, the CSV parsers, canonicalization and measurements, the checks of
-- settings and connections before the worker's first window, the download of a navigation file, the
-- solver behind the worker, RINEX
-- and weather clients, dashboards, numerical feature engineering, torch models, the frontend, SQL
-- migrations and deployment; they are other code, numerics over libraries, or input and output.
pub mod Common
pub mod Errors
pub mod Blast
pub mod Registry
pub mod Split
pub mod Upload
pub mod Dataset
pub mod Ppk
pub mod Auth
pub mod Examples
