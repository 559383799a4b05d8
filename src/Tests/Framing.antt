-- ===== src/Tests/Framing.antt =====
-- Frames of three bytes.
use remote_merge.Prelude.{◌<◌, [], ◌∷◌, ◌++◌, ok, All, ◌≡◌, refl, arith}
use remote_merge.Text.{Bytes}
use remote_merge.Framing.{write_frame, read_frame}
use remote_merge.Framing.RoundTrip.{read_frame-write_frame, write_frame-read_frame}

abbrev three : Bytes
three = 1 ∷ 2 ∷ 3 ∷ []

read_frame-write_frame_example :
    (frame : Bytes) × (write_frame three ≡ ok frame)
    × (read_frame (frame ++ (9 ∷ [])) ≡ ok (three, 9 ∷ []))
read_frame-write_frame_example = read_frame-write_frame three (9 ∷ []) (omega arith)

abbrev framed : Bytes
framed = 0 ∷ 0 ∷ 0 ∷ 3 ∷ 1 ∷ 2 ∷ 3 ∷ 9 ∷ []

framed_small : All (λ byte. byte < 256) framed
framed_small = ground arith

framed_read : read_frame framed ≡ ok (three, 9 ∷ [])
unfolding read_frame
framed_read = refl

write_frame-read_frame_example :
    (frame : Bytes) × (write_frame three ≡ ok frame) × (framed ≡ frame ++ (9 ∷ []))
write_frame-read_frame_example =
    write_frame-read_frame framed three (9 ∷ []) framed_small framed_read
