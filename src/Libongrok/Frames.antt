-- ===== src/Libongrok/Frames.antt =====
-- The frame codec of crates/libongrok/src/lib.rs: `encode_frame`, `decode_frames` and
-- `decode_frame_payload`. A frame is its length in four bytes, highest first, and its payload.
-- The payload's format is the crate postcard's, a parameter.
pub mod Header
pub mod Streams
use ongrok_relay.Prelude.{
  ℕ, zero, suc, ◌+◌, ◌*◌, ◌/◌, ◌%◌, ◌≤◌, ◌≡◌, List, [], ◌∷◌, ◌++◌, Text, length, take, drop, ltb,
  ◌==◌, if◌then◌else◌, Result, ok, err, bind, map_err, Error, Fallible,
}
use ongrok_relay.Libongrok.Types.{Frame, max_frame_size}

-- `postcard::to_allocvec` and `postcard::from_bytes` at `Frame`: what is written is read back, and
-- an enum takes a byte at least, for its variant.
pub record Postcard : Type 0 where
  pub to_allocvec : Frame → Fallible Text
  pub from_bytes : Text → Fallible Frame
  pub round_trip : (f : Frame) (b : Text) → to_allocvec f ≡ ok b → from_bytes b ≡ ok f
  pub nonempty : (f : Frame) (b : Text) → to_allocvec f ≡ ok b → 1 ≤ length b

pub data CodecError : Type 0 where
  frame_too_large invalid_length : CodecError
  malformed : Text → CodecError

-- `BytesMut::put_u32` and `Buf::get_u32`.
unfoldable pub put_u32 : ℕ → Text
put_u32 n = (n / 16777216 % 256) ∷ (n / 65536 % 256) ∷ (n / 256 % 256) ∷ (n % 256) ∷ []

unfoldable pub get_u32 : Text → ℕ
get_u32 (a ∷ b ∷ c ∷ d ∷ _) = a * 16777216 + b * 65536 + c * 256 + d
get_u32 _ = 0

pub data Next : Type 0 where
  waits : Next
  fails : CodecError → Text → Next
  yields : Frame → Text → Next

module _ (P : Postcard) where
  unfoldable pub encode_frame : Frame → Result CodecError Text
  encode_frame frame = bind (map_err malformed (P.to_allocvec frame)) (λ payload.
      if ltb max_frame_size (length payload)
      then err frame_too_large
      else ok (put_u32 (length payload) ++ payload))

  unfoldable pub decode_frame_payload : Text → Result CodecError Frame
  decode_frame_payload payload = map_err malformed (P.from_bytes payload)

  -- A payload that is not a frame is gone from the buffer when the error is returned.
  abbrev pub next_of : Result CodecError Frame → Text → Next
  next_of (ok frame) rest = yields frame rest
  next_of (err e) rest = fails e rest

  -- One round of the loop in `decode_frames`.
  unfoldable pub next_frame : Text → Next
  unfolding decode_frame_payload
  next_frame buffer =
      let len = get_u32 (take 4 buffer) in
      if ltb (length buffer) 4
      then waits
      else if ltb max_frame_size len
      then fails frame_too_large buffer
      else if len == 0
      then fails invalid_length buffer
      else if ltb (length buffer) (4 + len)
      then waits
      else next_of (decode_frame_payload (take len (drop 4 buffer))) (drop len (drop 4 buffer))

  unfoldable pub decode_loop : ℕ → Text → List Frame → Result CodecError (List Frame) × Text
  decode_loop zero buffer frames = (ok frames, buffer)
  decode_loop (suc fuel) buffer frames = elim (next_frame buffer) [
    | waits ↦ (ok frames, buffer)
    | fails e rest ↦ (err e, rest)
    | yields frame rest ↦ decode_loop fuel rest (frames ++ frame ∷ [])
  ]

  -- The result, and what is left in the buffer. Each round but the last takes a byte at least, so
  -- the fuel does not run out.
  unfoldable pub decode_frames : Text → Result CodecError (List Frame) × Text
  unfolding decode_loop
  decode_frames buffer = decode_loop (suc (length buffer)) buffer []
