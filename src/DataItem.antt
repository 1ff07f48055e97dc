-- ===== src/DataItem.antt =====
-- DataItem.h, DataItem.cpp: the data items that a message carries. `Types` holds the values and
-- their types, `Wire` the wire format, and the other modules what is proved of them.
pub mod Types
pub mod Wire
pub mod WellTyped
mod Fields
pub mod RoundTrip
pub mod Termination
pub mod Validate
pub mod Occurrences
pub mod Ip
