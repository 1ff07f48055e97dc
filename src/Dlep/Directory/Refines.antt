-- ===== src/Dlep/Directory/Refines.antt =====
-- DlepServiceImpl.cpp: the service answers as the directory does.
use ll_dlep.Common.{◌≡◌, nat_key, string_key, bytes_key}
use ll_dlep.DataItem.Types.{DataItem}
use ll_dlep.Peer.State.{Peer, Dlep}
use ll_dlep.Peer.Send
use ll_dlep.Dlep.{DlepState}
use ll_dlep.Dlep.Service.{ReturnStatus}
use ll_dlep.Dlep.Directory.{Directory, view}

-- What an answer of the service says of the directory.
abbrev Answers : Directory × ReturnStatus → DlepState × ReturnStatus → Type 0
Answers expected r = (view r.0, r.1) ≡ expected
