-- ===== src/Imap.antt =====
-- The IMAP client of pkg/imap/client.go: which messages of a mailbox it hands on, and when.
pub mod Folders
pub mod Uids
pub mod Sync
pub mod Process
pub mod Workers
pub mod Recovery
pub mod Session
pub mod Examples
