-- ===== src/Codec/Body.antt =====
-- infrastructure/peer/codec/frame.go: Marshal and Unmarshal. The protobuf runtime and the message
-- types generated from proto/liapoldus/peer/v1/peer.proto are a parameter.
use pluginprotocol.Errors.{sentinel, wrap, protocol_violation, Result, ok, err}
use pluginprotocol.Prelude.{Bytes, codes, Option, none, some, [], ◌∷◌}

-- proto.Marshal and proto.Unmarshal of one message type. Decoding gives the message and the unknown
-- fields that it kept; `none` is an error.
pub record Proto (M : Type 0) : Type 0 where
  pub encode : M → Option Bytes
  pub decode : Bytes → Option (M × Bytes)

module _ {M : Type 0} (p : Proto M) where
  unfoldable pub marshal : M → Result Bytes
  marshal m = elim (p.encode m) [
    | none ↦ err (wrap (codes "codec: encode frame body") (sentinel protocol_violation))
    | some body ↦ ok body
  ]

  unfoldable pub unmarshal : Bytes → Result M
  unmarshal body = elim (p.decode body) [
    | none ↦ err (wrap (codes "codec: decode frame body") (sentinel protocol_violation))
    | some (m, []) ↦ ok m
    | some (m, u ∷ us) ↦
        err (wrap (codes "codec: frame body carries unknown fields") (sentinel protocol_violation))
  ]
