-- ===== src/Migration/PreSession.antt =====
-- The messages before the secure session: src/migtd/src/migration/pre_session_data.rs.
-- `Frame` has the message layouts, `PeerData` the blob of policy and issuer chain, `Channel` the
-- loops over the transport, `Exchange` the packets and the exchange of both peers.
pub mod Frame
pub mod PeerData
pub mod Channel
pub mod Exchange
