-- ===== src/Message.antt =====
-- ProtocolMessage.h, ProtocolMessage.cpp: building, parsing and validating a message. `Build` and
-- `Parse` hold the operations, `Values` what a parsed message is asked for, and the other modules
-- what is proved of them.
pub mod Build
pub mod Parse
pub mod CommonItems
pub mod Values
pub mod Layout
pub mod Received
pub mod Statuses
pub mod Termination
pub mod Complete
