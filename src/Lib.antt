-- ===== src/Lib.antt =====
-- Secure Market: a web market with wallets, reports, administration and chat (Flask, SQLAlchemy
-- on SQLite, Flask-SocketIO). This library models the services below app/ and proves what they
-- guarantee, above all under failures of the database at any statement.
--
-- The parts and their files:
-- - Prelude: shared names; Checks has Boolean tests on numbers, Rows has lists as tables.
-- - Text: Python's str as code points (strip, replace, encode, in). Laws are in Text/Laws.
-- - Schema: the rows of app/models/__init__.py and the whole database as a record of tables;
--   Schema/Constraints has the CHECK, UNIQUE and FOREIGN KEY constraints that insertions meet.
-- - Session: db.session of app/extensions.py as a state and exception monad Tx. A transaction sees
--   `working` and commits it to `committed`. The list `signals` says what each call of the database
--   does: it goes well, raises IntegrityError or another SQLAlchemyError, or, at a commit, takes
--   effect and raises all the same. Session/Ends has rules for how a block can end.
-- - Audit: app/audit/services.py, and app/audit/policy.py in Audit/Policy.
-- - Platform: password hashing, SHA-256, UUID texts and Unicode normalization, which the program
--   calls and does not implement, as parameters; PlatformLaws has their documented behaviour.
-- - Config: constants of app/config.py. Samples: data for the tests.
-- - Listing: filters, order, joins, LIMIT and OFFSET of the listings.
-- - Wallet: create_transfer of app/wallet/services.py with its parts, one function each;
--   Wallet/Policy is app/wallet/policy.py; Wallet/History has the read-only services.
-- - Admin: app/admin/services.py. Users, Products, Reports and Messages have the mutations
--   change_user_status, change_product_status, decide_report and change_message_visibility, which
--   share the `try` statement commit_with_audit of Admin; Listings and Trails have the listings.
-- - Moderation: create_user_report and create_product_report of app/moderation/services.py with
--   the automatic restriction; Moderation/Policy is app/moderation/policy.py, and OwnReports has
--   the reads.
-- - Accounts: register_user and authenticate_user of app/auth/services.py and change_password of
--   app/users/services.py; Profiles has the rest of that file, Sessions load_user of
--   app/__init__.py with app/security.py, and Administrators the command of app/cli.py.
-- - Chat: RateLimit is app/chat/rate_limit.py, Connections the registry and the pruning of
--   app/chat/connections.py, Policy and Payloads are app/chat/policy.py, and Conversations,
--   Histories and Messages are app/chat/services.py. Server is the state that the socket handlers
--   share: the session of the event, the registry, the limiter, and what Flask-SocketIO keeps, the
--   rooms of the sockets and what was sent to them; a handler is a chain of steps on it that a
--   reply or an exception stops. Events has the handlers of app/chat/events.py under
--   authenticated_chat_event, and World the sequences of events.
-- - Images: app/products/images.py over a directory of files. Pillow is a parameter, and an `Os`
--   says what each call of the operating system answers; Storing, Serving and Reading are the
--   storing, the serving and its loop of os.read.
-- - Products: the mutations of app/products/services.py, on the rows and on the directory;
--   Products/Public has the search, the public page and get_image_access, and Products/World all
--   that changes products: owners, administrators and reports. Where a name is that
--   of a function of the administration (change_product_status), the module tells them apart.
-- The other children of these modules hold the proofs and are named for what they prove; each
-- Tests module runs the models on concrete data.
--
-- How the parts interact: every service runs in a session on the one database; the wallet,
-- administration and moderation write audit rows in the transaction of the change; administration
-- and moderation name the user whose sockets the chat is to disconnect; the mutations of products
-- store an image before the transaction, and remove one after it.
--
-- How the model stands to the code:
-- - An id is a number in place of a UUID text; ids are compared only, and sorted as the texts are.
--   Timestamps and clock readings are numbers. `one_or_none` on unique columns is the first row.
-- - A write of the ORM (an attribute or an audit row) is seen at once and costs no statement of its
--   own; a failure while it is flushed is a failure of the next statement or commit.
-- - A rollback does not fail. Calls of services do not overlap: each sees what the one before it
--   committed. Only create_transfer asks for this, with BEGIN IMMEDIATE; the other services read,
--   check and commit without it, so that what is proved of their sequences of calls does not cover
--   a writer between the check and the commit (docs/THREAT_MODEL.md, TM-44). The constraints of the
--   database hold all the same.
-- - `updated_at` and the timezone of times are left out; a listing is a function of the database.
-- - Socket events run one after another. A socket that is disconnected leaves its rooms at once,
--   and Socket.IO gives each connection a new sid. registry.now() and the clock of the limiter are
--   one clock.
-- - The second Image.open of the same bytes gives the same picture as the first.
-- - Every definition recurses on its data but read_chunks, the loop of os.read, which has fuel: one
--   more than the bytes that are asked for is enough, and read_product_image gives as much.
--
-- Not modelled: routes, forms, templates and static files (request glue and display), the
-- main pages, list_owner_products (its order is that of updated_at), the permissions of
-- files at start-up, the application factory, migrations and scripts.
pub mod Prelude
pub mod Text
pub mod Schema
pub mod Session
pub mod Audit
pub mod Platform
pub mod Config
pub mod Samples
pub mod Listing
pub mod Wallet
pub mod Admin
pub mod Moderation
pub mod Images
pub mod Products
pub mod Chat
pub mod Accounts
