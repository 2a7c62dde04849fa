-- ===== src/Lib.antt =====
-- A model of the platform that stands between the BUSY accounting service, the point of sale and
-- the WooCommerce store: a mirror of BUSY's masters in MySQL, an outbox of jobs that write to BUSY,
-- and the sale quotations that go through it.
--
-- The parts and the files that model them. Functions keep their names; a leading underscore is
-- dropped.
--   * app/outbox/models.py, queue.py, worker.py: Outbox/Models, Outbox/Queue (`enqueue`),
--     Outbox/Worker (`process_next_job`, `drain_outbox`, the registry), Outbox/Loop (the periodic
--     drain). The table is a list of rows with the next id. Outbox/Rows, Keys, Process, Steps,
--     Loop/Advance and Loop/Drains hold the proofs; Steps puts sessions and workers side by side as
--     steps on the committed table, and Refines says what those steps keep to.
--   * app/domain/orders/quotations.py: Orders/Items (the request and its XML), Orders/Payload (JSON
--     and back), Orders/Queue (enqueue and listing), Orders/Refresh (names and prices from the
--     mirror), Orders/Verify (each item read back from BUSY), Orders/Handler (the job's handler, and
--     the generic one of app/outbox/worker.py); Handler/Job puts it under the worker.
--   * app/busy: Busy/Client (client.py), Busy/Constants, Busy/XmlText, Busy/Rowset and Busy/Element
--     (xml_util.py), Busy/BitColumns, Busy/VchNumbering, Busy/Pagination. The regular expressions
--     are scanners that recur on the text.
--   * app/domain/catalog/sync.py: Catalog/Stamps (checkpoints and categories), Catalog/Detail (the
--     fields of an item), Catalog/Centers, Catalog/Products, Catalog/Snapshot; Catalog/Transaction says
--     what a run does with its transaction. scheduler.py: Catalog/Scheduler, a run as a chain of
--     sessions and the loop around it.
--   * app/domain/catalog/vch_series.py, queries.py and stock.py: Catalog/VchSeries, Catalog/Queries,
--     Catalog/Stock. Table/Order is `ORDER BY`.
--   * app/integrations/woocommerce.py and app/domain/catalog/woo_sync.py: Woo/Client with Woo/Quote,
--     Woo/Payload, Woo/Push (the pass over the mirror) and Woo/ByCode (picked products).
--   * app/domain/auth/users.py and tokens.py: Auth and Auth/Tokens.
--   * app/api/v1: Api (the quotations, the outbox and deps.py), Api/Accounts (auth.py), Api/Products,
--     Api/Sync, and Api/Listings (admin.py and the plain listings). A route takes a validated body,
--     the clock and the request's token, and answers or raises a status.
--   * scripts: Scripts/Accounts (init_db.py, create_user.py and create_superadmin.py), Scripts/Export
--     (export_busy_products_csv.py), Scripts/SeedImport (seed_import_woocommerce.py), Scripts/Reports
--     (list_quotations.py and list_products.py), Scripts/Once (drain_outbox_once.py and
--     run_catalog_sync_once.py).
--   * app/main.py: App, the background tasks that the settings switch on, and the request's id.
--   * alembic/versions: Migrations/Tables, Steps and Revisions; Migrations/Metadata has the tables that
--     the ORM's models declare.
--   * app/db/models.py: Db, with a session as the committed state and the state of its transaction.
-- Exec is the state and exception monad that they are written in: what was changed before a raise
-- stays changed, as in Python, until a rollback. Base, Json, Strings, Decimal, Table and Migrations
-- model what the code uses of Python's types and of SQL; Decimal has the context of 28 digits.
--
-- How they meet: a route enqueues a job, the worker claims it and runs its handler, which reads BUSY,
-- verifies and posts; the scheduler mirrors BUSY into the tables that the routes list and that the
-- push to WooCommerce reads.
--
-- Parameters: the HTTP requests of the BUSY and WooCommerce clients (`http_get` and `send`, on a
-- state W of the outside world, which may raise); the hash of a password and its check; the JWT
-- library (`Jwt`, with the hypothesis that, under a key and an algorithm with which it signs and
-- checks, a token reads back from the second it was issued until it expires); the database's order,
-- comparison and match of texts in listings (`le`, `equal`, `ilike`); the verdict of the rate
-- limiter; Python's text of a dict (`repr`); whether the database takes the best-effort write of a
-- quotation's verification (`accepts`); `type(exc).__name__` and `str(exc)` in the worker; what
-- other sessions commit between the check and the insert of `enqueue` (`others`), and whether
-- another constraint refuses the insert (`refused`); for each turn of the worker's loop, whether it
-- connects, which rows are locked, and what others commit; the clock (`now`, one reading for each
-- step of a sync); what is typed at a prompt, and whether the process of the migrations ends well.
--
-- Fuel: `drain_outbox` and `fetch_pages` stand for `while True` loops and run on fuel, with `none`
-- where it runs out. For the pages, one round more than there are rows is enough; for the drain,
-- more fuel than queued rows is enough, since each round ends one, and the worker's loop gives one
-- more than there are. The batches of the product sync and of the export use as much fuel as there
-- are codes, and drop at least one each. The search of the history for the revision of a database
-- takes one step more than there are revisions.
--
-- Not modelled: letters and digits beyond ASCII in the regular expressions, `int` and `Decimal`;
-- the Decimals NaN and Infinity (their texts are refused), and traps of the decimal context other
-- than those of `quantize`; failures of the database other than those above; the columns
-- that the database fills with its clock; the rounding and the length limits of MySQL's columns and
-- its collation in keys (texts are compared exactly there); payloads whose fields have other JSON
-- types than the program writes (Python carries them on or raises later, here they are refused at
-- once); the order of the concurrent calls within one batch (here the order of the batch); the log.
-- Nor is what only wires libraries together: the routers in main.py, the settings' source, the
-- log's format, the limiter's set-up, the engine, alembic/env.py, the validation of request bodies,
-- bcrypt, and the shell scripts. A session's objects are the rows of its transaction, and in the
-- WooCommerce push an id that is no number raises before its category is stored, where Python
-- stores it first.
pub mod App
pub mod Base
pub mod Exec
pub mod Json
pub mod Migrations
pub mod Strings
pub mod Decimal
pub mod Errors
pub mod Busy
pub mod Outbox
pub mod Table
pub mod Db
pub mod Catalog
pub mod Orders
pub mod Auth
pub mod Woo
pub mod Api
pub mod Scripts
pub mod Tests
