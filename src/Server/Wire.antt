-- ===== src/Server/Wire.antt =====
-- wire.rs of crates/ongrok-relay-server/src, and its copy in crates/ongrok-relay-client/src/main.rs:
-- one frame at a time, from the bytes that the other end sends until it closes the stream, and to a
-- stream that takes `room` more bytes.
pub mod Reads
mod Tests
use ongrok_relay.Prelude.{
  ℕ, ◌-◌, ◌≤◌, Bool, ◌||◌, List, [], ◌∷◌, ◌++◌, Text, text, decimal, length, take, drop, ltb, leb,
  ◌==◌, if◌then◌else◌, ok, err, Error, Fallible, map_err, context, M, ◌>>=◌, ◌>>◌, pure, fail, lift,
}
use ongrok_relay.Libongrok.Types.{Frame, max_frame_size}
use ongrok_relay.Libongrok.Frames.{
  Postcard, CodecError, frame_too_large, invalid_length, malformed, get_u32, encode_frame,
  decode_frame_payload,
}

-- `Display` of a `CodecError`.
unfoldable pub codec_message : CodecError → Error
codec_message frame_too_large = text "frame exceeds maximum size"
codec_message invalid_length = text "invalid frame length"
codec_message (malformed e) = text "malformed frame: " ++ e

-- `read_exact`: at the end of the stream, what was there is gone.
abbrev pub read_exact : ℕ → Error → M Text Text
read_exact n e incoming =
    if ltb (length incoming) n then (err e, []) else (ok (take n incoming), drop n incoming)

abbrev pub read_payload : Postcard → ℕ → M Text Frame
read_payload P size =
    if size == 0 || ltb max_frame_size size
    then fail (text "invalid control frame length " ++ decimal size)
    else (read_exact size (text "failed to read control frame payload") >>= λ payload.
        lift (map_err codec_message (decode_frame_payload P payload)))

unfoldable pub read_control_frame : Postcard → M Text Frame
unfolding codec_message
read_control_frame P = do
  header ← read_exact 4 (text "failed to read control frame length")
  read_payload P (get_u32 header)

pub record Outgoing : Type 0 where
  pub written : Text
  pub room : ℕ

abbrev write_all : Text → M Outgoing (Unit {0})
write_all bytes o =
    if leb (length bytes) o.room
    then (ok tt, record { written = o.written ++ bytes; room = o.room - length bytes })
    else (
      err (text "failed to write control frame"),
      record { written = o.written ++ take o.room bytes; room = 0 },
    )

unfoldable pub write_control_frame : Postcard → Frame → M Outgoing (Unit {0})
unfolding codec_message
write_control_frame P frame = do
  encoded ← lift (map_err codec_message (encode_frame P frame))
  write_all encoded
