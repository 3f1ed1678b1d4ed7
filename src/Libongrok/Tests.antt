-- ===== src/Libongrok/Tests.antt =====
-- The theorems on libongrok at concrete inputs.
use ongrok_relay.Prelude.{
  ◌≤◌, ◌≡◌, refl, ◌↔◌, [], ◌∷◌, ◌++◌, Text, text, length, ok, err, Fallible, arith, ◌==◌,
  if◌then◌else◌,
}
use ongrok_relay.Libongrok.Types.{Frame, Metadata}
use ongrok_relay.Libongrok.Validation.{validate, validate_service_name}
use ongrok_relay.Libongrok.Validation.Limits.{
  IsWithinLimits, validate_iff, IsServiceName, validate_service_name_iff,
}
use ongrok_relay.Libongrok.Frames.{
  Postcard, encode_frame, decode_frames, next_frame, put_u32, get_u32, decode_frame_payload,
}
use ongrok_relay.Libongrok.Frames.Streams.{
  prepend, decode_frames-append, decode_frames-encode_all, IsIncomplete, decode_frames-IsIncomplete,
}

one_entry : Metadata
one_entry = record { entries = (text "region", text "eu") ∷ [] }

validate_iff_example : (validate one_entry ≡ ok tt) ↔ IsWithinLimits one_entry
validate_iff_example = validate_iff one_entry

validate_service_name_iff_example :
    (validate_service_name (text "web-1") ≡ ok tt) ↔ IsServiceName (text "web-1")
validate_service_name_iff_example = validate_service_name_iff (text "web-1")

abbrev same : Text → Text
same t = t

-- A format in which only a goodbye can be written.
abbrev write_goodbye : Frame → Fallible Text
write_goodbye Frame.goodbye = ok (16 ∷ [])
write_goodbye _ = err []

abbrev read_goodbye : Text → Fallible Frame
read_goodbye (b ∷ []) = if b == 16 then ok Frame.goodbye else err []
read_goodbye _ = err []

pub read-write : (f : Frame) (b : Text) → write_goodbye f ≡ ok b → read_goodbye b ≡ ok f
read-write Frame.goodbye b e = ground arith
read-write _ b e = cc

pub write-nonempty : (f : Frame) (b : Text) → write_goodbye f ≡ ok b → 1 ≤ length b
write-nonempty Frame.goodbye b e = ground arith
write-nonempty _ b e = cc

abbrev pub goodbyes : Postcard
goodbyes = record {
  to_allocvec = write_goodbye;
  from_bytes = read_goodbye;
  round_trip = read-write;
  nonempty = write-nonempty;
}

abbrev pub goodbye_bytes : Text
goodbye_bytes = 0 ∷ 0 ∷ 0 ∷ 1 ∷ 16 ∷ []

decode_frames-append_example :
    decode_frames goodbyes ((goodbye_bytes ++ 0 ∷ 0 ∷ []) ++ 0 ∷ 1 ∷ 16 ∷ [])
    ≡ prepend (Frame.goodbye ∷ []) (decode_frames goodbyes ((0 ∷ 0 ∷ []) ++ 0 ∷ 1 ∷ 16 ∷ []))
unfolding decode_frames next_frame get_u32 decode_frame_payload
decode_frames-append_example =
    decode_frames-append goodbyes (goodbye_bytes ++ 0 ∷ 0 ∷ []) (0 ∷ 1 ∷ 16 ∷ []) (0 ∷ 0 ∷ [])
      (Frame.goodbye ∷ []) refl

decode_frames-encode_all_example :
    decode_frames goodbyes ((goodbye_bytes ++ goodbye_bytes) ++ 0 ∷ [])
    ≡ prepend (Frame.goodbye ∷ Frame.goodbye ∷ []) (decode_frames goodbyes (0 ∷ []))
unfolding encode_frame put_u32
decode_frames-encode_all_example =
    decode_frames-encode_all goodbyes (Frame.goodbye ∷ Frame.goodbye ∷ [])
      (goodbye_bytes ++ goodbye_bytes) (0 ∷ []) refl

decode_frames-IsIncomplete_example : IsIncomplete (0 ∷ 0 ∷ 0 ∷ 2 ∷ 16 ∷ [])
unfolding decode_frames next_frame get_u32 decode_frame_payload
decode_frames-IsIncomplete_example =
    decode_frames-IsIncomplete goodbyes (goodbye_bytes ++ 0 ∷ 0 ∷ 0 ∷ 2 ∷ 16 ∷ [])
      (0 ∷ 0 ∷ 0 ∷ 2 ∷ 16 ∷ []) (Frame.goodbye ∷ []) refl
