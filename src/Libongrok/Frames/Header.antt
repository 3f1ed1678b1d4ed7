-- ===== src/Libongrok/Frames/Header.antt =====
-- The length field of a frame, and one round of the decoder on a whole frame.
use ongrok_relay.Prelude.{
  ℕ, ◌+◌, ◌≤◌, ◌<◌, ◌≡◌, refl, [], ◌++◌, Text, length, take, drop, length-append, length-drop,
  take-append, drop-append, take-append_le, drop-append_le, ap, Result, ok, err, arith, map_err,
  Result-cases, inl, inr,
}
use ongrok_relay.Libongrok.Types.{Frame, max_frame_size}
use ongrok_relay.Libongrok.Frames.{
  Postcard, CodecError, malformed, put_u32, get_u32, yields, encode_frame, next_frame,
  decode_frame_payload, next_of,
}

pub get_u32-put_u32 : (n : ℕ) (rest : Text) → n < 4294967296 → get_u32 (put_u32 n ++ rest) ≡ n
unfolding get_u32 put_u32
get_u32-put_u32 n rest h = omega arith

module _ (P : Postcard) where
  -- What `encode_frame` writes: four bytes of length, and the payload that postcard made.
  pub encode_frame-eq-ok :
      (f : Frame) (b : Text)
      → encode_frame P f ≡ ok b
      → (payload : Text) × (P.to_allocvec f ≡ ok payload)
        × (length payload ≤ max_frame_size)
        × (b ≡ put_u32 (length payload) ++ payload)
  unfolding encode_frame
  encode_frame-eq-ok f b h = elim (Result-cases (P.to_allocvec f)) [
    | inl (payload, e) ↦ (payload, e, ground arith, ground arith)
    | inr (x, e) ↦ absurd (ground arith)
  ]

  -- The parts of a round that yields a frame.
  pub record Yields (buffer rest : Text) (f : Frame) : Type 0 where
    pub len : ℕ
    pub header : get_u32 (take 4 buffer) ≡ len
    pub nonempty : 1 ≤ len
    pub bounded : len ≤ max_frame_size
    pub complete : 4 + len ≤ length buffer
    pub payload : decode_frame_payload P (take len (drop 4 buffer)) ≡ ok f
    pub left : drop len (drop 4 buffer) ≡ rest

  next_of-eq-yields :
      (r : Result CodecError Frame) (x rest : Text) (f : Frame)
      → next_of P r x ≡ yields f rest
      → (r ≡ ok f) × (x ≡ rest)
  next_of-eq-yields (ok g) x rest f h = (ground arith, ground arith)
  next_of-eq-yields (err e) x rest f h = cc

  pub next_frame-eq-yields :
      (buffer rest : Text) (f : Frame) → next_frame P buffer ≡ yields f rest → Yields buffer rest f
  unfolding next_frame
  next_frame-eq-yields buffer rest f h =
      let len = get_u32 (take 4 buffer) in
      let inner : next_of P (decode_frame_payload P (take len (drop 4 buffer)))
            (drop len (drop 4 buffer))
          ≡ yields f rest =
        ground arith in
      let (payload, left) = next_of-eq-yields _ _ rest f inner in
      record {
        len = len;
        header = refl;
        nonempty = ground arith;
        bounded = ground arith;
        complete = ground arith;
        payload = payload;
        left = left;
      }

  next_of_ok : (x : Text) (f : Frame) → next_of P (ok f) x ≡ yields f x
  next_of_ok x f = refl

  pub next_frame_of :
      (buffer rest : Text) (f : Frame) → Yields buffer rest f → next_frame P buffer ≡ yields f rest
  unfolding next_frame
  next_frame_of buffer rest f y = ground (arith, next_of_ok (drop y.len (drop 4 buffer)) f)

  -- A round takes a byte at least from the buffer.
  pub next_frame_shorter :
      (buffer rest : Text) (f : Frame)
      → next_frame P buffer ≡ yields f rest
      → length rest + 5 ≤ length buffer
  next_frame_shorter buffer rest f h =
      let y = next_frame-eq-yields buffer rest f h in
      omega (
        arith,
        y.nonempty,
        y.complete,
        ap length y.left,
        length-drop y.len (drop 4 buffer),
        length-drop 4 buffer,
      )

  -- The decoder reads an encoded frame back, and leaves what follows it.
  pub next_frame-encode_frame :
      (f : Frame) (b rest : Text)
      → encode_frame P f ≡ ok b
      → next_frame P (b ++ rest) ≡ yields f rest
  unfolding decode_frame_payload put_u32
  next_frame-encode_frame f b rest h =
      let (payload, written, small, same) = encode_frame-eq-ok f b h in
      rw same (
        next_frame_of _ rest f (record {
          len = length payload;
          header = get_u32-put_u32 (length payload) [] (omega arith);
          nonempty = P.nonempty f payload written;
          bounded = small;
          complete = omega (arith, length-append payload rest);
          payload =
              rw (take-append payload rest)
                (ap (map_err malformed) (P.round_trip f payload written));
          left = drop-append payload rest;
        }))

  -- Bytes that arrive later do not change a frame that was complete.
  pub next_frame-append :
      (a b rest : Text) (f : Frame)
      → next_frame P a ≡ yields f rest
      → next_frame P (a ++ b) ≡ yields f (rest ++ b)
  next_frame-append a b rest f h =
      let y = next_frame-eq-yields a rest f h in
      let short = next_frame_shorter a rest f h in
      let tail = drop-append_le 4 a b (omega arith) in
      let fits : y.len ≤ length (drop 4 a) = omega (arith, y.complete, length-drop 4 a) in
      next_frame_of (a ++ b) (rest ++ b) f (record {
        len = y.len;
        header = rw (take-append_le 4 a b (omega arith)) y.header;
        nonempty = y.nonempty;
        bounded = y.bounded;
        complete = omega (arith, y.complete, length-append a b);
        payload = rw (tail, take-append_le y.len (drop 4 a) b fits) y.payload;
        left = rw (tail, drop-append_le y.len (drop 4 a) b fits) (ap (λ r. r ++ b) y.left);
      })
