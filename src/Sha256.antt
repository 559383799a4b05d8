-- ===== src/Sha256.antt =====
-- SHA-256 in lower case hexadecimal (crates/remote-merge-core/src/sha256.rs). The digest is that of
-- crate sha2, a parameter.
use remote_merge.Prelude.{ℕ, ◌/◌, ◌%◌, ◌+◌, [], ◌∷◌, ltb, if◌then◌else◌}
use remote_merge.Text.{Bytes}

hex_digit : ℕ → ℕ
hex_digit n = if ltb n 10 then b'0' + n else 87 + n

-- Two digits for each byte.
unfoldable pub hex : Bytes → Bytes
unfolding hex_digit
hex [] = []
hex (byte ∷ bytes) = hex_digit (byte / 16) ∷ hex_digit (byte % 16) ∷ hex bytes

module _ (digest : Bytes → Bytes) where
  unfoldable pub hex_of_bytes : Bytes → Bytes
  unfolding hex
  hex_of_bytes content = hex (digest content)
