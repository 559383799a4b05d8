-- ===== src/Framing.antt =====
-- Frames with a length before them (crates/remote-merge-protocol/src/framing.rs). A stream is the
-- bytes still to be read, and a writer one that takes every byte.
pub mod RoundTrip
use remote_merge.Prelude.{
  ℕ, ◌+◌, ◌*◌, ◌/◌, ◌%◌, ◌^◌, List, [], ◌∷◌, ◌++◌, Option, none, some, Result, ok, err, ◌>>=◌,
  length, take, drop, ltb, if◌then◌else◌,
}
use remote_merge.Text.{Bytes}

abbrev pub max_frame_size : ℕ
max_frame_size = 16 * 1024 * 1024

-- The kinds of failure, with the length that was refused.
pub data FrameError : Type 0 where
  invalid_input : ℕ → FrameError
  invalid_data : ℕ → FrameError
  unexpected_eof : FrameError

-- `u32::to_be_bytes`
unfoldable pub to_be_bytes : ℕ → Bytes
to_be_bytes n = n / 2 ^ 24 % 256 ∷ n / 2 ^ 16 % 256 ∷ n / 2 ^ 8 % 256 ∷ n % 256 ∷ []

-- `u32::from_be_bytes`
unfoldable pub from_be_bytes : ℕ → ℕ → ℕ → ℕ → ℕ
from_be_bytes a b c d = a * 2 ^ 24 + b * 2 ^ 16 + c * 2 ^ 8 + d

-- What is written.
unfoldable pub write_frame : Bytes → Result FrameError Bytes
unfolding to_be_bytes
write_frame payload =
    let len = length payload in
    if ltb max_frame_size len
    then err (invalid_input len)
    else ok (to_be_bytes (len % 2 ^ 32) ++ payload)

-- `read_exact`: as many bytes, and what is left.
unfoldable pub read_exact : ℕ → Bytes → Result FrameError (Bytes × Bytes)
read_exact n stream =
    if ltb (length stream) n then err unexpected_eof else ok (take n stream, drop n stream)

length_of : Bytes → ℕ
unfolding from_be_bytes
length_of (a ∷ b ∷ c ∷ d ∷ _) = from_be_bytes a b c d
length_of _ = 0

-- The payload, and what is left of the stream.
unfoldable pub read_frame : Bytes → Result FrameError (Bytes × Bytes)
unfolding read_exact length_of
read_frame stream = do
  (len_buf, rest) ← read_exact 4 stream
  let len = length_of len_buf
  if ltb max_frame_size len then err (invalid_data len) else read_exact len rest
