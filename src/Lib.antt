-- ===== src/Lib.antt =====
-- Serviq: the knowledge pipeline, from the admission of an upload to the chunks of a document,
-- and the access of people to organizations.
--
-- The program. A tenant uploads files or names URLs as knowledge sources. The API admits each
-- upload against the tenant's quota, records a cleanup obligation before it writes the raw object,
-- and later either refers to the object from a source or deletes it. The worker takes the sync
-- events of the sources, fetches the content, and hands each version on once, as a document with
-- a parse event. The parsed segments are cut into overlapping windows of tokens. The broker's
-- messages carry the commands; a failed one is retried three times and then set aside. Who may act
-- for a tenant is a matter of memberships with roles, which an organization's creator, invitations
-- and the management of members hand out.
--
-- The files, with the code that they are about:
--   Common             names that the modules share: Boolean tests, tables of rows with the SQL
--                      statements over them, the first and later items of lists, decimal numbers as
--                      text, and in Common/Tx a database transaction (`async with session.begin()`):
--                      an exception rolls back
--   Access/Rows        services/api/app/modules/tenancy/models.py, invitations/models.py,
--                      organizations/models.py and workforce/models.py: the rows and the tables
--   Access/Tenancy     tenancy/repository.py and service.py
--   Access/Invitations, Access/Email   invitations/repository.py, service.py and, in Email,
--                      normalize_invitation_email of security.py
--   Access/Members     members/repository.py and service.py
--   Access/Organizations   organizations/repository.py and service.py
--   Access/Workforce   workforce/repository.py and service.py
--   Knowledge/Rows     services/api/app/modules/knowledge/models.py, services/api/app/models/
--                      outbox.py: the rows, and the tables of the module
--   Knowledge/Tx       knowledge/errors.py, for the transactions of this module
--   Knowledge/Repository   knowledge/repository.py: the statements, and in Repository/Cleanups the
--                      four transitions of a cleanup row
--   Knowledge/Quota    knowledge/quota.py: reserve_file_upload, finalize_file_upload_reservation,
--                      assert_source_capacity, release_unlinked_reservation
--   Knowledge/Cleanup  knowledge/cleanup.py: arm_upload_cleanup, mark_inline_cleanup_succeeded, and
--                      in Cleanup/Replay reconcile_upload_cleanup with its transactions, in
--                      Cleanup/Sweep reconcile_due_upload_cleanups
--   Knowledge/Service  knowledge/service.py: create_source, start_source_sync, create_file_source,
--                      and in Service/Legacy prepare_file_upload_admission with
--                      reconcile_legacy_file_sizes of quota.py
--   Worker/Sync        services/worker/app/jobs/knowledge_sync.py: the transaction that persists,
--                      and in Sync/Run the whole run_knowledge_sync
--   Worker/Chunking    services/worker/app/core/knowledge_chunking.py, the whole of it
--   Worker/Outbox      services/worker/app/jobs/outbox_publisher.py, one batch
--   Worker/Consumer    services/worker/app/consumers/knowledge_sync.py, one message
--   Worker/UploadCleanup   services/worker/app/jobs/knowledge_upload_cleanup.py, one batch
--   Access/Examples, Worker/ConsumerExamples, Worker/UploadCleanupExamples, Knowledge/Examples,
--   Worker/SyncExamples, Worker/ChunkExamples, Worker/OutboxExamples   runs
-- The other files below a module hold what is proved of it.
--
-- How the code corresponds. A table is a list of rows in insertion order. A transaction is a
-- function of the tables that returns a value with the new tables, or an exception; row locks make
-- transactions of one tenant serial, so a session is one step, and what other sessions commit
-- between two steps of one operation is an argument (`others`). The clock, new ids, the text of a
-- UUID, the answers of the object store and the broker, the public fetch, SHA-256 and the white
-- space of the pattern for a token are arguments too. A UUID is a number that is only compared; a
-- time is a number of microseconds, in the publisher of seconds; sizes and counters are natural
-- numbers, which Python does not bound either.
--
-- Bounds and fuel. The loops over rows, segments and spans are structural. The loop of
-- `_token_windows` takes a token from the iterator on every turn, and has as fuel the number of
-- tokens; that no token is missing from its windows shows that this is enough.
--
-- Not modelled: log lines; the HTTP layer, uploads.py of the knowledge module, and the list of
-- its sources; normalization and the public fetch, which stand on parsers and the network;
-- sign-in and sessions, providers, the gateway to language models, and the web apps, which are other
-- subsystems.
pub mod Common
pub mod Access
pub mod Knowledge
pub mod Worker
