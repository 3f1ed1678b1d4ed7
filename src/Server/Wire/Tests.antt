-- ===== src/Server/Wire/Tests.antt =====
-- The theorem on the frames of a stream at a concrete input.
use ongrok_relay.Prelude.{◌≡◌, refl, [], ◌∷◌, ◌++◌, ok}
use ongrok_relay.Libongrok.Types.{Frame}
use ongrok_relay.Libongrok.Frames.{encode_frame, put_u32}
use ongrok_relay.Libongrok.Tests.{goodbyes, goodbye_bytes}
use ongrok_relay.Server.Wire.Reads.{read_times, read_times-encode_all}

read_times-encode_all_example :
    read_times goodbyes 2 ((goodbye_bytes ++ goodbye_bytes) ++ 0 ∷ [])
    ≡ (ok Frame.goodbye ∷ ok Frame.goodbye ∷ [], 0 ∷ [])
unfolding encode_frame put_u32
read_times-encode_all_example =
    read_times-encode_all goodbyes (Frame.goodbye ∷ Frame.goodbye ∷ [])
      (goodbye_bytes ++ goodbye_bytes) (0 ∷ []) refl
