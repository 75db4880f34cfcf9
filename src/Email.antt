-- ===== src/Email.antt =====
-- pkg/email: threads of inbound messages, the pipeline that they go through, the quotation and the
-- subject of a reply, and the senders.
pub mod Threading
pub mod Processor
pub mod GmailEvents
pub mod GmailPoller
pub mod ReplySubject
pub mod Senders
pub mod Quote
pub mod Examples
