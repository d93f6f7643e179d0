-- ===== src/Udp.antt =====
-- The UDP service: ed2ksrv/server_udp.go and the handlers of ed2ksrv/udp_search.go. The socket, the
-- trace and the statistics are not modelled; what is sent is a list.
pub mod State
pub mod Replies
pub mod Callback
pub mod Search
pub mod GetSources
pub mod Dispatch
pub mod Rounds
pub mod Relay
pub mod Safety
mod Runs
