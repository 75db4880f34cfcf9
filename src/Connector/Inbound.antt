-- ===== src/Connector/Inbound.antt =====
-- The connector's side of the inbound pipeline: the adapter of pkg/connector/connector.go that hands
-- the table of sent messages to the processor, and what the two sides make of one message.
pub mod Echo
pub mod Rooms
pub mod Examples
use matrimail.Prelude.{Bool, Option, Text, false, none, some}
use matrimail.Connector.SentDedup.{SentDedupQuery, exists_sent}

-- dedupAdapter.IsOurMessage; `none` for a nil store. Exists does not fail here.
unfoldable pub is_our_message : Option SentDedupQuery → Text → Text → Option Bool
is_our_message none receiver message_id = some false
is_our_message (some q) receiver message_id = some (exists_sent receiver message_id q)
