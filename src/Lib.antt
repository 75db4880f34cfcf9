-- ===== src/Lib.antt =====
-- matrimail bridges e-mail and Matrix: connections to an IMAP server or the Gmail API bring messages
-- in, each is filed with a thread, and a thread is a Matrix room. This library models the parts of
-- the Go program that carry its own logic:
--
-- Reliability: pkg/reliability. Connections are made through a circuit breaker and a retry loop.
--   Breaker: circuit_breaker.go. `Breaker` is the struct CircuitBreaker, each of its methods is a
--     function of its own name, and `execute` is Execute for calls that do not overlap. In
--     Breaker/Interleaving a goroutine is a place in the code of Execute and checkStateAndIncrement,
--     and a step runs from one lock or atomic operation to the next. Breaker/Sequential has the
--     specification that `execute` refines.
--   Retry: retry.go. Retry itself has the categories of errors, Retry/Delay calculateDelay over an
--     abstract float64, and Retry/Loop RetryWithBackoff. An error is its text or one of the two
--     errors of the breaker, which ShouldRetry tells from all others.
-- Coordinator: pkg/coordinator/state_coordinator.go. The connections report events (ReportEvent), and
--   the coordinator sends the state of the bridge, with throttling.
-- Email/Threading: pkg/email/threading.go. Threading has the data and the functions on headers,
--   Manager the ThreadManager with its caches, Determine the function DetermineThread and what it
--   does to the thread it finds. Email/Processor is the pipeline of pkg/email/processor.go from a
--   parsed e-mail to the message for Matrix. Email/GmailPoller is the poller of
--   pkg/email/inbound_gmail_api.go, and Email/GmailEvents how it reads a history.
--   Email/ReplySubject is NormalizeReplySubject of pkg/email/quote.go, and Email/Quote the rest of that
--   file, its HTML half in Quote/Html. Email/Senders is the choice of a sender in sender_factory.go and
--   the request of sender_gmail.go.
-- Connector: pkg/connector. Connector/Send is what client_send.go takes from a thread for a message
--   sent from a room, Connector/Portal the thread of a room and its PortalMetadata, and
--   Connector/SentDedup the table of sent_dedup.go, as the list of its rows. Connector/Inbound hands
--   this table to the processor, as connector.go does. Connector/Login is the login with a password:
--   login_validation.go, and in Login/Steps the steps of login.go, with what they save.
--   Connector/Outgoing makes the message that answers a thread (buildOutgoingMessage), and
--   Connector/Outbound is handleMatrixMessageOutbound, from the room to the sender and back to the
--   store. Connector/Accounts is the table of accounts in database.go, as the list of its rows, with
--   its methods in Accounts/Query; Connector/Transport is how LoadUserLogin of client.go connects an
--   account by what the table says, and Connector/Reauth what a failed refresh of a token does to the
--   table (reauth.go and reauth_tokensource.go).
-- Imap: pkg/imap/client.go. Imap/Sync is how new messages are found, by the last UID that Imap/Uids
--   keeps for a mailbox, and Imap/Process what becomes of one of them: it calls the processor, then
--   the bridge for the portal, the room and the event. Imap/Workers has several calls at a time.
--   Imap/Session has the flags, channels and locks of the connections, Imap/Recovery is how the IDLE loop
--   gets its connection back through the circuit breaker, and Imap/Folders the choice of folders of
--   pkg/imap/folders.go.
-- Prelude: the tests, lists, strings, integers and maps that the others share.
--
-- State. A method that locks its receiver is one function from the old state to the new one. Threads
-- are shared by pointer in Go: they stand in a heap, `cells`, and the maps hold references into it.
-- A Go map is a list of its entries, and where Go leaves the order of a `range` open, it is the order
-- of that list. The clock is an argument, one reading for each method but for Execute, which reads it
-- up to three times. A callback is the record of whether it is called and with what.
--
-- Numbers. Durations are in nanoseconds, and a time is a number of them. An int that only counts is
-- unbounded, and the int32 counter of the breaker wraps around. float64 and its operations are the
-- parameter `Float`; `FloatLaws` states what of IEEE 754 the bound on a delay needs.
--
-- Strings are lists of bytes. Case mapping and trimming treat the ASCII letters and spaces, where Go
-- knows those of Unicode. Loops over a string that is shortened in each round run on its length as
-- fuel, which is enough as each round drops at least one byte. RetryWithBackoff runs on the number of
-- its attempts.
--
-- Parameters stand for what the program calls and does not contain: the function that is retried or
-- protected, the context and the timers (`Environment`), net/mail's ParseAddress and the format of a
-- date (`Externals`, and `parse` with the display name), the digits that fmt prints, the resolver
-- that asks the database for a thread, the answers of the IMAP server (`Server`, `Fetch`) and the
-- bridge framework (`Bridge`), the answers of the Gmail API (`Answers`), those that a login gets
-- (`LoginAnswers`), what a message from a room meets (`Outside`) and what a connection does
-- (`Setting`), and encryption, base64 and JSON (`Codec`), of which `CodecLaws` and `JsonLaws`
-- state that decoding undoes encoding, of JSON for valid UTF-8.
--
-- Not modelled: the rest of the connector, the connections of the IMAP client, the MIME writer, SMTP
-- and the login with OAuth, commands, and the calls of Matrix, which are network code around
-- third-party libraries; the files of the key and the changes of the schema; the cleaning of HTML,
-- which works on the tree of a third-party parser; logging; a panic of the protected function.
pub mod Prelude
pub mod Reliability
pub mod Coordinator
pub mod Imap
pub mod Email
pub mod Connector
