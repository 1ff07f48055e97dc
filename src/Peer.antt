-- ===== src/Peer.antt =====
-- Peer.h, Peer.cpp: the session with one peer, from the TCP connection on. `State` holds the data,
-- `Responses` what every handler uses, `Send` the messages that start here, `Initialization`,
-- `Destinations` and `Dispatch` the reaction to each message, `Receive` the entry points from
-- sockets and timers.
pub mod State
pub mod Responses
pub mod Send
pub mod Addresses
pub mod Free
pub mod Owners
pub mod Initialization
pub mod Destinations
pub mod Dispatch
pub mod Queues
pub mod Sound
pub mod Ending
pub mod Answers
pub mod Activity
pub mod Setup
pub mod Framing
pub mod Receive
pub mod Runs
