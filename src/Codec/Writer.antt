-- ===== src/Codec/Writer.antt =====
-- infrastructure/peer/codec/frame.go: Writer. The io.Writer is a parameter: a state and what a
-- `Write` of some bytes makes of it, with the count and the error that it reports.
pub mod Delivery
pub mod Frames
use pluginprotocol.Codec.{Frame, validate}
use pluginprotocol.Codec.BigEndian.{put_be}
use pluginprotocol.Errors.{connection_closed, message_too_large, short_write, GoError, sentinel}
use pluginprotocol.Limits.{default_limits}
use pluginprotocol.Prelude.{
  ℕ, zero, suc, ◌-◌, ◌^◌, Bool, Option, none, some, [], ◌∷◌, ◌++◌, ◌==◌, ltb, if◌then◌else◌, Bytes,
  ℤ, pos, negsuc, is_non_positive, exceeds, length, drop,
}

abbrev pub max_uint32 : ℕ
max_uint32 = 2 ^ 32 - 1

-- `if maxBodySize <= 0` in NewWriter.
abbrev pub writer_bound : ℤ → ℤ
writer_bound z = if is_non_positive z then default_limits.max_message_bytes else z

unfoldable pub header_of : Frame → Bytes
unfolding put_be
header_of frame =
    put_be 1 frame.frame_type ++ (put_be 8 frame.stream_id ++ put_be 4 (length frame.payload))

abbrev pub encode : Frame → Bytes
encode frame = header_of frame ++ frame.payload

-- One round of the loop of writeAll, after a `Write` of `sent` that reports `written` and an error.
unfoldable pub write_round {ℓ} :
    {T : Type ℓ}
    → Bytes
    → (Bytes → Option (T × Option GoError))
    → T
    → ℤ
    → Option GoError
    → Option (T × Option GoError)
write_round sent next t (negsuc n) e = some (t, some (sentinel connection_closed))
write_round sent next t (pos n) (some x) = some (t, some (sentinel connection_closed))
write_round sent next t (pos n) none =
    if ltb (length sent) n
    then some (t, some (sentinel connection_closed))
    else if n == 0
    then some (t, some (sentinel short_write))
    else next (drop n sent)

module _ {ℓ} {T : Type ℓ} (write : T → Bytes → T × ℤ × Option GoError) where
  -- The loop of writeAll; `none` is no outcome of the code: the rounds ran out.
  unfoldable pub write_all_loop : ℕ → T → Bytes → Option (T × Option GoError)
  write_all_loop rounds t [] = some (t, none)
  write_all_loop zero t (b ∷ bs) = none
  write_all_loop (suc rounds) t (b ∷ bs) =
      let (t', written, e) = write t (b ∷ bs) in
      write_round (b ∷ bs) (λ rest. write_all_loop rounds t' rest) t' written e

  -- A round that goes on has written a byte at least.
  unfoldable pub write_all : T → Bytes → Option (T × Option GoError)
  write_all t bytes = write_all_loop (length bytes) t bytes

  -- The body follows its header, unless the header failed.
  unfoldable pub write_payload : Bytes → Option (T × Option GoError) → Option (T × Option GoError)
  write_payload payload none = none
  write_payload payload (some (t, some e)) = some (t, some e)
  write_payload payload (some (t, none)) =
      if length payload == 0 then some (t, none) else write_all t payload

  unfoldable pub write_frame : ℤ → T → Frame → Option (T × Option GoError)
  unfolding validate
  write_frame max_body_size t frame =
      if exceeds (length frame.payload) max_body_size
      then some (t, some (sentinel message_too_large))
      else if ltb max_uint32 (length frame.payload)
      then some (t, some (sentinel message_too_large))
      else elim (validate frame) [
        | some e ↦ some (t, some e)
        | none ↦ write_payload frame.payload (write_all t (header_of frame))
      ]
