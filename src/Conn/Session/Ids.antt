-- ===== src/Conn/Session/Ids.antt =====
-- infrastructure/peer/conn/session.go: stream IDs are split between the two roles.
use pluginprotocol.Conn.Session.{
  Role, role_client, role_server, Session, owns_stream_id, allocate_stream_id, parity, new_session,
}
use pluginprotocol.Limits.{Limits}
use pluginprotocol.Prelude.{
  ℕ, zero, suc, ◌+◌, ◌*◌, ◌^◌, true, false, ◌≡◌, ◌≢◌, ◌∙◌, refl, ◌-◌, ◌<◌, if◌then◌else◌, arith,
  Bytes,
}

-- Every ID belongs to exactly one of the two roles.
pub owns_stream_id-role :
    (stream_id : ℕ)
    → owns_stream_id role_server stream_id
      ≡ (if owns_stream_id role_client stream_id then false else true)
unfolding owns_stream_id
owns_stream_id-role stream_id = refl

module _ {T H P Q : Type 0} where
  -- The ID of the session's allocation number `n`, counted from 0.
  unfoldable pub allocation : ℕ → Session T H P Q → ℕ
  unfolding allocate_stream_id
  allocation zero s = (allocate_stream_id s).1
  allocation (suc n) s = allocation n (allocate_stream_id s).0

  allocation_from :
      (n x : ℕ) (s : Session T H P Q)
      → s.next_stream_id ≡ x
      → x + 2 * n < 2 ^ 64
      → allocation n s ≡ x + 2 * n
  unfolding allocation allocate_stream_id
  allocation_from zero x s q h = omega arith
  allocation_from (suc n) x s q h =
      allocation_from n (x + 2) (allocate_stream_id s).0 (omega arith) (omega arith) ∙ omega arith

  -- Wrapping at 2^64 keeps the parity.
  allocation-owns :
      (n : ℕ) (role : Role) (s : Session T H P Q)
      → owns_stream_id role s.next_stream_id ≡ true
      → owns_stream_id role (allocation n s) ≡ true
  unfolding allocation allocate_stream_id owns_stream_id
  allocation-owns zero role s q = q
  allocation-owns (suc n) role_client s q =
      allocation-owns n role_client (allocate_stream_id s).0 (ground arith)
  allocation-owns (suc n) role_server s q =
      allocation-owns n role_server (allocate_stream_id s).0 (ground arith)

module _ (T H P Q : Type 0) (limits : Limits) (remote : Bytes) (transport : T) (handler : H) where
  -- However many stream IDs the two ends of a connection allocate, past the wrap of the counter
  -- too, each is of its owner's half by both ends' test, so no ID of the one is an ID of the other.
  pub allocation_disjoint :
      (n m now : ℕ)
      → let client : Session T H P Q =
          new_session role_client limits remote transport handler now in
        let server : Session T H P Q =
          new_session role_server limits remote transport handler now in
        (owns_stream_id role_client (allocation n client) ≡ true)
        × (owns_stream_id role_server (allocation n client) ≡ false)
        × (owns_stream_id role_server (allocation m server) ≡ true)
        × (owns_stream_id role_client (allocation m server) ≡ false)
        × (allocation n client ≢ allocation m server)
  unfolding new_session parity owns_stream_id
  allocation_disjoint n m now =
      let client : Session T H P Q = new_session role_client limits remote transport handler now in
      let server : Session T H P Q = new_session role_server limits remote transport handler now in
      let mine = allocation-owns n role_client client (ground arith) in
      let theirs = allocation-owns m role_server server (ground arith) in
      (mine, ground arith, theirs, ground arith, λ q. ground arith)

  -- The first 2^63 - 1 stream IDs that a session allocates are its parity and every second number
  -- after it, in order.
  new_session-allocation :
      (role : Role) (n now : ℕ)
      → n < 2 ^ 63 - 1
      → allocation {T = T} {H = H} {P = P} {Q = Q} n
          (new_session role limits remote transport handler now)
        ≡ parity role + 2 * n
  unfolding new_session parity
  new_session-allocation role n now small =
      allocation_from n (parity role) (new_session role limits remote transport handler now) refl
        (ground arith)
