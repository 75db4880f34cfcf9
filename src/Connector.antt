-- ===== src/Connector.antt =====
-- pkg/connector: between the Matrix rooms and the mail accounts.
pub mod Send
pub mod Outgoing
pub mod Outbound
pub mod Portal
pub mod SentDedup
pub mod Inbound
pub mod Login
pub mod Accounts
pub mod Transport
pub mod Reauth
pub mod Examples
