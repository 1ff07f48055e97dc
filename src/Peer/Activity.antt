-- ===== src/Peer/Activity.antt =====
-- Peer.cpp: check_for_activity() against what it is for.
use ll_dlep.Common.{
  ℕ, ◌+◌, ◌*◌, ◌%◌, ◌^◌, ◌≤◌, ◌<◌, ◌≡◌, sym, ap, ◌∙◌, Bool, true, false, ◌||◌, arith, ltb, leb,
  ◌==◌, lt→ltb, ge→ltb, ok, >>=-elim, nat_key, string_key, bytes_key, if-≡-elim, ok-injective,
}
use ll_dlep.Peer.State.{terminating, inactive, Peer, Dlep}
use ll_dlep.Peer.Responses.{terminate, check_for_activity}
use ll_dlep.Peer.Ending.{terminate-ends}

-- The sum that the code compares with the time is the sum itself where nothing overflows.
wrapped_late : (a b t : ℕ) → a + b < 2 ^ 32 → leb ((a + b % 2 ^ 32) % 2 ^ 32) t ≡ true → a + b ≤ t
wrapped_late a b t small h = ground arith

wrapped_soon : (a b t : ℕ) → a + b < 2 ^ 32 → leb ((a + b % 2 ^ 32) % 2 ^ 32) t ≡ false → t < a + b
wrapped_soon a b t small h = ground arith

module _ (dlep : Dlep) where
  -- When check_for_activity() returns, it says that a peer is active exactly if the heartbeat
  -- interval in seconds that is stored for the peer is 0, be it sent as 0 or rounded to it, or the
  -- last message of the peer is less than that interval times the configured threshold ago. A peer
  -- that is not active is terminated, and one that is active is as before. Condition:
  -- the product, added to the time of the last message, is below 2^32.
  pub check_for_activity_lem :
      (peer q : Peer) (active : Bool)
      → peer.last_receive_time + peer.peer_heartbeat_interval_sec * dlep.client.heartbeat_threshold
        < 2 ^ 32
      → check_for_activity dlep peer ≡ ok (q, active)
      → (active ≡ (
          peer.peer_heartbeat_interval_sec == 0
          || ltb dlep.time (
              peer.last_receive_time
              + peer.peer_heartbeat_interval_sec * dlep.client.heartbeat_threshold)))
        × (active ≡ true → q ≡ peer)
        × (active ≡ false → q.pstate ≡ terminating)
  unfolding check_for_activity
  check_for_activity_lem peer q active small h =
      if-≡-elim (peer.peer_heartbeat_interval_sec == 0) h
        (λ z r'.
          let r = ok-injective r' in
          (
            rw z (sym (ap (λ t. t.1) r)),
            λ _. sym (ap (λ t. t.0) r),
            λ no'. absurd (cc (ap (λ t. t.1) r, no')),
          ))
        (λ nz h'.
          if-≡-elim
            (leb
              ((peer.last_receive_time
                  + peer.peer_heartbeat_interval_sec * dlep.client.heartbeat_threshold % 2 ^ 32)
                % 2 ^ 32)
              dlep.time)
            h'
            (λ late h''. >>=-elim (terminate dlep peer "Timed_Out" (inactive _)) _ h'' λ p ended r'.
              let r = ok-injective r' in
              (
                rw
                    (
                      nz,
                      ge→ltb dlep.time _
                          (wrapped_late peer.last_receive_time _ dlep.time small late),
                    )
                    (sym (ap (λ t. t.1) r)),
                λ yes'. absurd (cc (ap (λ t. t.1) r, yes')),
                λ _. ap (λ t. t.0.pstate) (sym r) ∙ (terminate-ends dlep peer p _ _ ended).0,
              ))
            (λ soon r'.
              let r = ok-injective r' in
              (
                rw
                    (
                      nz,
                      lt→ltb dlep.time _
                          (wrapped_soon peer.last_receive_time _ dlep.time small soon),
                    )
                    (sym (ap (λ t. t.1) r)),
                λ _. sym (ap (λ t. t.0) r),
                λ no'. absurd (cc (ap (λ t. t.1) r, no')),
              )))
