-- ===== src/Peer/Framing.antt =====
-- Peer.cpp: the loop of handle_session_receive() over the complete messages in the buffer.
use ll_dlep.Common.{
  ℕ, zero, suc, true, false, none, some, List, take, drop, Result, ok, stuck, nat_key, string_key,
  bytes_key, ◌>>=◌,
}
use ll_dlep.ProtocolConfig.{ProtocolConfig}
use ll_dlep.Message.Parse.{is_complete_message}
pub mod Rounds
pub mod Chunks
pub mod Messages

-- `handle` is handle_peer_signal() on a state `S`. The result is the state and the bytes that are
-- left. A round takes a message off the buffer, so more fuel than bytes is enough.
module _ {ℓ} {S : Type ℓ} (cfg : ProtocolConfig) (handle : S → List ℕ → Result S) where
  unfoldable pub handle_complete : ℕ → S → List ℕ → Result (S × List ℕ)
  handle_complete zero s buf = stuck
  handle_complete (suc fuel) s buf = do
    (msg_size, complete) ← is_complete_message cfg buf
    elim msg_size [
      | none ↦ ok (s, buf)
      | some n ↦ elim complete [
        | false ↦ ok (s, buf)
        | true ↦ do s' ← handle s (take n buf); handle_complete fuel s' (drop n buf)
      ]
    ]
