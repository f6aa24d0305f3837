-- ===== src/Codec/Tests.antt =====
-- Runs of infrastructure/peer/codec/frame.go at a concrete frame.
use mathlib.Core.List.{append-nil}
use pluginprotocol.Codec.{Frame, validate, frame_data}
use pluginprotocol.Codec.Acceptance.{read_frame_accepts}
use pluginprotocol.Codec.Reader.{read_frame}
use pluginprotocol.Codec.Rejection.{CutOff, read_frame_cut, read_frame_oversized}
use pluginprotocol.Codec.RoundTrip.{reader_of, read_frame-encode}
use pluginprotocol.Codec.Writer.{
  header_of, encode, write_frame, write_payload, write_all, write_all_loop, write_round, max_uint32,
}
use pluginprotocol.Codec.Writer.Delivery.{write_frame-ne-none}
use pluginprotocol.Codec.Writer.Frames.{Appends, IsReliable, write_frame-sent, write_frame_reliable}
use pluginprotocol.Errors.{GoError, sentinel, eof, message_too_large, ok, err}
use pluginprotocol.Prelude.{
  zero, suc, sym, ◌≤◌, ◌≡◌, ◌≢◌, refl, false, Option, none, some, [], ◌∷◌, ◌++◌, Bytes, ℤ, pos,
  exceeds, length, arith,
}

abbrev sample : Frame
sample = record { frame_type = frame_data; stream_id = 258; payload = 7 ∷ 8 ∷ [] }

read_frame-encode_example :
    read_frame (reader_of (encode sample ++ 9 ∷ []) (sentinel eof) (pos 10))
    ≡ (reader_of (9 ∷ []) (sentinel eof) (pos 10), ok sample)
unfolding validate
read_frame-encode_example =
    read_frame-encode sample (9 ∷ []) (sentinel eof) (pos 10) refl (omega arith) refl

read_frame_oversized_example :
    read_frame (reader_of (encode sample ++ 9 ∷ []) (sentinel eof) (pos 1)) ≡ (
      reader_of (sample.payload ++ 9 ∷ []) (sentinel eof) (pos 1),
      err (sentinel message_too_large),
    )
unfolding validate
read_frame_oversized_example =
    read_frame_oversized sample (9 ∷ []) (sentinel eof) (pos 1) refl (omega arith) refl

abbrev front : Bytes
front = 5 ∷ 0 ∷ 0 ∷ 0 ∷ 0 ∷ 0 ∷ 0 ∷ 1 ∷ 2 ∷ 0 ∷ 0 ∷ 0 ∷ 2 ∷ 7 ∷ []

read_frame_cut_example : CutOff front (read_frame (reader_of front (sentinel eof) (pos 10))).1
unfolding validate header_of
read_frame_cut_example = read_frame_cut sample front 8 [] (pos 10) refl (omega arith) refl refl

abbrev incoming : Bytes
incoming = front ++ 8 ∷ 9 ∷ []

read_frame_accepts_example :
    (incoming ≡ encode sample ++ 9 ∷ [])
    × (validate sample ≡ none)
    × (exceeds (length sample.payload) (pos 10) ≡ false)
unfolding validate header_of
read_frame_accepts_example =
    read_frame_accepts incoming (sentinel eof) (pos 10)
      {r = reader_of (9 ∷ []) (sentinel eof) (pos 10)} {frame = sample} (ground arith)
      (read_frame-encode sample (9 ∷ []) (sentinel eof) (pos 10) refl (omega arith) refl)

abbrev nothing : Bytes
nothing = []

-- A connection that takes one byte of each write, and one that takes none.
abbrev slow : Bytes → Bytes → Bytes × ℤ × Option GoError
slow sent [] = (sent, pos 0, none)
slow sent (b ∷ bs) = (sent ++ b ∷ [], pos 1, none)

abbrev stuck : Bytes → Bytes → Bytes × ℤ × Option GoError
stuck sent bytes = (sent, pos 0, none)

slow-Appends : Appends slow (λ sent. sent)
slow-Appends t [] zero e h = sym (append-nil t)
slow-Appends t [] (suc n) e h = absurd (omega arith)
slow-Appends t (b ∷ bs) zero e h = absurd (ground arith)
slow-Appends t (b ∷ bs) (suc zero) e h = refl
slow-Appends t (b ∷ bs) (suc (suc n)) e h = absurd (ground arith)

slow-IsReliable : IsReliable slow
slow-IsReliable t b bs = (1, refl, omega arith, omega arith, refl)

write_frame_reliable_example : (t : Bytes) × (write_frame slow (pos 10) [] sample ≡ some (t, none))
unfolding validate
write_frame_reliable_example =
    write_frame_reliable slow slow-IsReliable (pos 10) [] sample refl refl (omega arith)

write_frame-sent_example :
    (encode sample ≡ [] ++ encode sample)
    × (validate sample ≡ none)
    × (exceeds (length sample.payload) (pos 10) ≡ false)
    × (length sample.payload ≤ max_uint32)
unfolding write_frame write_payload write_all write_all_loop header_of write_round
write_frame-sent_example =
    write_frame-sent slow (λ sent. sent) slow-Appends (pos 10) [] sample {t' = encode sample} refl

write_frame-ne-none_example : write_frame stuck (pos 10) [] sample ≢ none
write_frame-ne-none_example = write_frame-ne-none stuck (pos 10) [] sample
