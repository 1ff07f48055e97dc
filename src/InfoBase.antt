-- ===== src/InfoBase.antt =====
-- InfoBaseMgr.h, InfoBaseMgr.cpp: what is known of each peer and of its destinations.
pub mod Destination
pub mod PeerData
pub mod Manager
pub mod IpUpdates
pub mod Updates
pub mod PeerUpdates
pub mod Metrics
pub mod Destinations
pub mod Consistency
pub mod Removal
