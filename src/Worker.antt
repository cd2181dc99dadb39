-- ===== src/Worker.antt =====
-- The worker's parts: the sync job of a knowledge source, the chunking of its
-- content, and the publisher of the outbox.
pub mod Sync
pub mod Chunking
pub mod Outbox
pub mod Consumer
pub mod UploadCleanup
mod SyncExamples
mod ChunkExamples
mod OutboxExamples
mod ConsumerExamples
mod UploadCleanupExamples
