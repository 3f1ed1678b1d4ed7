-- ===== src/Libongrok/Frames/Streams.antt =====
-- `decode_frames` on the bytes of a stream, however they are cut into reads.
use ongrok_relay.Prelude.{
  ℕ, zero, suc, ◌+◌, ◌*◌, ◌<◌, ◌≡◌, ◌≢◌, take, drop, refl, sym, ap, ◌∙◌, List, [], ◌∷◌, ◌++◌, Text,
  length, Result, ok, err, bind, bind-eq-ok, arith, ◌⊎◌, inl, inr,
}
use mathlib.Core.List.{append_assoc, append-nil}
use ongrok_relay.Libongrok.Types.{Frame}
use ongrok_relay.Libongrok.Frames.{
  Postcard, CodecError, Next, waits, fails, yields, encode_frame, next_frame, decode_loop,
  decode_frames, next_of, get_u32, decode_frame_payload,
}
use ongrok_relay.Libongrok.Frames.Header.{
  next_frame_shorter, next_frame-encode_frame, next_frame-append,
}

-- Frames that were decoded before the rest of a result.
abbrev pub prepend :
    List Frame → Result CodecError (List Frame) × Text → Result CodecError (List Frame) × Text
prepend frames (ok later, rest) = (ok (frames ++ later), rest)
prepend frames (err e, rest) = (err e, rest)

prepend_assoc :
    (xs ys : List Frame) (r : Result CodecError (List Frame) × Text)
    → prepend xs (prepend ys r) ≡ prepend (xs ++ ys) r
prepend_assoc xs ys (ok zs, rest) = rw (append_assoc xs ys zs)
prepend_assoc xs ys (err e, rest) = refl

Next-cases :
    (n : Next)
    → (n ≡ waits)
      ⊎ ((e : CodecError) × (rest : Text) × (n ≡ fails e rest))
      ⊎ ((f : Frame) × (rest : Text) × (n ≡ yields f rest))
Next-cases waits = inl refl
Next-cases (fails e rest) = inr (inl (e, rest, refl))
Next-cases (yields f rest) = inr (inr (f, rest, refl))

prepend_nil : (r : Result CodecError (List Frame) × Text) → prepend [] r ≡ r
prepend_nil (ok fs, rest) = refl
prepend_nil (err e, rest) = refl

prepend-eq-ok :
    (f : Frame) (r : Result CodecError (List Frame) × Text) (fs : List Frame) (rest : Text)
    → prepend (f ∷ []) r ≡ (ok fs, rest)
    → (gs : List Frame) × (r ≡ (ok gs, rest)) × (f ∷ gs ≡ fs)
prepend-eq-ok f (ok gs, x) fs rest e = (gs, ground arith, ground arith)
prepend-eq-ok f (err x, y) fs rest e = absurd (ground arith)

whole :
    (a : Text) (fs : List Frame) (rest : Text)
    → ◌≡◌ {A = Result CodecError (List Frame) × Text} (ok [], a) (ok fs, rest)
    → ([] ≡ fs) × (a ≡ rest)
whole a fs rest e = (ground arith, ground arith)

some_bytes : (a b : Text) → ◌≡◌ {A = Result CodecError Text} (ok a) (ok b) → a ≡ b
some_bytes a b e = cc

-- Bytes that are not a whole frame yet.
abbrev pub IsIncomplete : Text → Type 0
IsIncomplete (a ∷ b ∷ c ∷ d ∷ later) = length later < ((a * 256 + b) * 256 + c) * 256 + d
IsIncomplete _ = Unit

module _ (P : Postcard) where
  -- One round of the loop, with the later rounds' result.
  abbrev pub round : Next → Text → Result CodecError (List Frame) × Text
  round waits buffer = (ok [], buffer)
  round (fails e rest) buffer = (err e, rest)
  round (yields f rest) buffer = prepend (f ∷ []) (decode_frames P rest)

  -- Any fuel above the buffer's length gives the same result.
  decode_loop_fuel :
      (n k : ℕ) (buffer : Text) (frames : List Frame)
      → length buffer < n
      → length buffer < k
      → decode_loop P n buffer frames ≡ decode_loop P k buffer frames
  unfolding decode_loop
  decode_loop_fuel zero k buffer frames hn hk = elim hn [ ]
  decode_loop_fuel (suc n) zero buffer frames hn hk = elim hk [ ]
  decode_loop_fuel (suc n) (suc k) buffer frames hn hk = elim (Next-cases (next_frame P buffer)) [
    | inl e ↦ rw (e, decode_loop) refl
    | inr (inl (x, rest, e)) ↦ rw (e, decode_loop) refl
    | inr (inr (f, rest, e)) ↦
        let short = next_frame_shorter P buffer rest f e in
        rw (e, decode_loop)
          (decode_loop_fuel n k rest (frames ++ f ∷ []) (omega arith) (omega arith))
  ]

  -- The frames that were decoded before a round stand in front of the result.
  decode_loop-prepend :
      (n : ℕ) (buffer : Text) (frames : List Frame)
      → decode_loop P n buffer frames ≡ prepend frames (decode_loop P n buffer [])
  unfolding decode_loop
  decode_loop-prepend zero buffer frames = rw (append-nil frames) refl
  decode_loop-prepend (suc n) buffer frames = elim (Next-cases (next_frame P buffer)) [
    | inl e ↦ rw (e, decode_loop) (rw (append-nil frames) refl)
    | inr (inl (x, rest, e)) ↦ rw (e, decode_loop) refl
    | inr (inr (f, rest, e)) ↦
        rw (e, decode_loop)
          (decode_loop-prepend n rest (frames ++ f ∷ [])
            ∙ sym (
                ap (prepend frames) (decode_loop-prepend n rest (f ∷ []))
                ∙ prepend_assoc frames (f ∷ []) (decode_loop P n rest [])))
  ]

  -- The loop's equation, which mentions no fuel.
  decode_frames_lem : (buffer : Text) → decode_frames P buffer ≡ round (next_frame P buffer) buffer
  unfolding decode_frames decode_loop
  decode_frames_lem buffer = elim (Next-cases (next_frame P buffer)) [
    | inl e ↦ rw (e, decode_loop) refl
    | inr (inl (x, rest, e)) ↦ rw (e, decode_loop) refl
    | inr (inr (f, rest, e)) ↦
        let short = next_frame_shorter P buffer rest f e in
        rw (e, decode_loop)
          (decode_loop-prepend (length buffer) rest (f ∷ [])
            ∙ ap (prepend (f ∷ [])) (
                decode_loop_fuel (length buffer) (suc (length rest)) rest [] (omega arith)
                  (omega arith)))
  ]

  decode-append_below :
      (n : ℕ) (a b rest : Text) (fs : List Frame)
      → length a < n
      → decode_frames P a ≡ (ok fs, rest)
      → decode_frames P (a ++ b) ≡ prepend fs (decode_frames P (rest ++ b))
  decode-append_below zero a b rest fs h e = elim h [ ]
  decode-append_below (suc n) a b rest fs h e = elim (Next-cases (next_frame P a)) [
    | inl w ↦
        let (none_yet, same) = whole a fs rest (rw (decode_frames_lem a, w) at e) in
        rw (← none_yet, ← same) (sym (prepend_nil (decode_frames P (a ++ b))))
    | inr (inl (x, r, w)) ↦ cc (rw (decode_frames_lem a, w) at e)
    | inr (inr (f, r, w)) ↦
        let (gs, later, same) =
          prepend-eq-ok f (decode_frames P r) fs rest (rw (decode_frames_lem a, w) at e) in
        let short = next_frame_shorter P a r f w in
        rw (decode_frames_lem (a ++ b), next_frame-append P a b r f w, ← same)
          (ap (prepend (f ∷ [])) (decode-append_below n r b rest gs (omega arith) later)
            ∙ prepend_assoc (f ∷ []) gs (decode_frames P (rest ++ b)))
  ]

  -- Decoding what has arrived, and going on with the bytes left over when more have arrived, gives
  -- the frames and the buffer of decoding all the bytes at once.
  pub decode_frames-append :
      (a b rest : Text) (fs : List Frame)
      → decode_frames P a ≡ (ok fs, rest)
      → decode_frames P (a ++ b) ≡ prepend fs (decode_frames P (rest ++ b))
  decode_frames-append a b rest fs e =
      decode-append_below (suc (length a)) a b rest fs (omega arith) e

  -- The encodings of a list of frames, one after the other.
  abbrev pub encode_all : List Frame → Result CodecError Text
  encode_all [] = ok []
  encode_all (f ∷ fs) = bind (encode_frame P f) (λ b. bind (encode_all fs) (λ bs. ok (b ++ bs)))

  -- Frames that were encoded one after the other are decoded in order, before the bytes that follow.
  pub decode_frames-encode_all :
      (fs : List Frame) (bytes rest : Text)
      → encode_all fs ≡ ok bytes
      → decode_frames P (bytes ++ rest) ≡ prepend fs (decode_frames P rest)
  decode_frames-encode_all [] bytes rest e =
      rw (← (some_bytes [] bytes e)) (sym (prepend_nil (decode_frames P rest)))
  decode_frames-encode_all (f ∷ fs) bytes rest e =
      let (b, first, others) = bind-eq-ok (encode_frame P f) _ e in
      let (bs, later, joined) = bind-eq-ok (encode_all fs) _ others in
      rw
        (
          ← (some_bytes (b ++ bs) bytes joined),
          append_assoc b bs rest,
          decode_frames_lem (b ++ (bs ++ rest)),
          next_frame-encode_frame P f b (bs ++ rest) first,
        )
        (ap (prepend (f ∷ [])) (decode_frames-encode_all fs bs rest later)
          ∙ prepend_assoc (f ∷ []) fs (decode_frames P rest))

  waits_below :
      (n : ℕ) (a rest : Text) (fs : List Frame)
      → length a < n
      → decode_frames P a ≡ (ok fs, rest)
      → next_frame P rest ≡ waits
  waits_below zero a rest fs h e = elim h [ ]
  waits_below (suc n) a rest fs h e = elim (Next-cases (next_frame P a)) [
    | inl w ↦ let (_, same) = whole a fs rest (rw (decode_frames_lem a, w) at e) in rw (← same) w
    | inr (inl (x, r, w)) ↦ cc (rw (decode_frames_lem a, w) at e)
    | inr (inr (f, r, w)) ↦
        let (gs, later, same) =
          prepend-eq-ok f (decode_frames P r) fs rest (rw (decode_frames_lem a, w) at e) in
        let short = next_frame_shorter P a r f w in waits_below n r rest gs (omega arith) later
  ]

  next_of-ne-waits : (r : Result CodecError Frame) (rest : Text) → next_of P r rest ≢ waits
  next_of-ne-waits (ok f) rest h = cc
  next_of-ne-waits (err e) rest h = cc

  waits-IsIncomplete : (buffer : Text) → next_frame P buffer ≡ waits → IsIncomplete buffer
  unfolding next_frame get_u32
  waits-IsIncomplete [] h = tt
  waits-IsIncomplete (a ∷ []) h = tt
  waits-IsIncomplete (a ∷ b ∷ []) h = tt
  waits-IsIncomplete (a ∷ b ∷ c ∷ []) h = tt
  waits-IsIncomplete (a ∷ b ∷ c ∷ d ∷ tail) h =
      let len = get_u32 (a ∷ b ∷ c ∷ d ∷ []) in
      ground (arith, next_of-ne-waits (decode_frame_payload P (take len tail)) (drop len tail))

  -- What a decoding without an error leaves in the buffer is no whole frame: fewer than four bytes, or
  -- fewer bytes after the first four than the number says that these are, the highest byte first.
  pub decode_frames-IsIncomplete :
      (a rest : Text) (fs : List Frame) → decode_frames P a ≡ (ok fs, rest) → IsIncomplete rest
  decode_frames-IsIncomplete a rest fs e =
      waits-IsIncomplete rest (waits_below (suc (length a)) a rest fs (omega arith) e)
