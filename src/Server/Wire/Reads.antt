-- ===== src/Server/Wire/Reads.antt =====
-- Frames that are read one at a time, against the decoder of libongrok.
use ongrok_relay.Prelude.{
  ℕ, ◌≡◌, refl, sym, ◌∙◌, ap, ◌↔◌, List, [], ◌∷◌, ◌++◌, Text, length, take, length-drop, map, ok,
  Fallible, bind, bind-eq-ok, arith, zero, suc,
}
use mathlib.Core.List.{append_assoc}
use ongrok_relay.Libongrok.Types.{Frame}
use ongrok_relay.Libongrok.Frames.{Postcard, yields, get_u32, encode_frame, next_frame}
use ongrok_relay.Libongrok.Frames.Header.{
  Yields, next_frame-eq-yields, next_frame_of, next_frame-encode_frame,
}
use ongrok_relay.Libongrok.Frames.Streams.{encode_all}
use ongrok_relay.Server.Wire.{read_control_frame}

module _ (P : Postcard) where
  read-Yields :
      (bytes rest : Text) (f : Frame)
      → Yields P bytes rest f
      → read_control_frame P bytes ≡ (ok f, rest)
  unfolding read_control_frame
  read-Yields bytes rest f y =
      ground
        (arith, y.header, y.nonempty, y.bounded, y.complete, y.payload, y.left, length-drop 4 bytes)

  Yields-read :
      (bytes rest : Text) (f : Frame)
      → read_control_frame P bytes ≡ (ok f, rest)
      → Yields P bytes rest f
  unfolding read_control_frame
  Yields-read bytes rest f h =
      let size = get_u32 (take 4 bytes) in
      record {
        len = size;
        header = refl;
        nonempty = ground arith;
        bounded = ground arith;
        complete = ground (arith, length-drop 4 bytes);
        payload = ground arith;
        left = ground arith;
      }

  -- Reading one frame takes what one round of `decode_frames` takes, from the same bytes.
  pub read_control_frame-next_frame :
      (bytes rest : Text) (f : Frame)
      → (read_control_frame P bytes ≡ (ok f, rest)) ↔ (next_frame P bytes ≡ yields f rest)
  read_control_frame-next_frame bytes rest f = (
    λ h. next_frame_of P bytes rest f (Yields-read bytes rest f h),
    λ h. read-Yields bytes rest f (next_frame-eq-yields P bytes rest f h),
  )

  -- What the reads of a session give, one after the other, and the bytes that are left.
  abbrev pub read_times : ℕ → Text → List (Fallible Frame) × Text
  read_times zero bytes = ([], bytes)
  read_times (suc n) bytes =
      let (result, rest) = read_control_frame P bytes in
      let (later, left) = read_times n rest in (result ∷ later, left)

  abbrev all_ok : List Frame → List (Fallible Frame)
  all_ok frames = map (λ f. ok f) frames

  -- The frames that one end writes are what the other end reads, in order: the reads of a session are
  -- the list of its frames, and what follows them is untouched.
  pub read_times-encode_all :
      (frames : List Frame) (bytes rest : Text)
      → encode_all P frames ≡ ok bytes
      → read_times (length frames) (bytes ++ rest) ≡ (all_ok frames, rest)
  read_times-encode_all [] bytes rest h = ground arith
  read_times-encode_all (f ∷ fs) bytes rest h =
      let (b, first, others) =
        bind-eq-ok (encode_frame P f) (λ b. bind (encode_all P fs) (λ bs. ok (b ++ bs))) h in
      let (bs, later, joined) = bind-eq-ok (encode_all P fs) (λ bs. ok (b ++ bs)) others in
      let whole : b ++ bs ≡ bytes = cc joined in
      let split : bytes ++ rest ≡ b ++ (bs ++ rest) =
        ap (λ t. t ++ rest) (sym whole) ∙ append_assoc b bs rest in
      let got =
        (read_control_frame-next_frame (b ++ (bs ++ rest)) (bs ++ rest) f).1
          (next_frame-encode_frame P f b (bs ++ rest) first) in
      rw (split, got, read_times-encode_all fs bs rest later)
