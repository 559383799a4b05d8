-- ===== src/Framing/RoundTrip.antt =====
-- What is written is read back, and nothing else is read.
use remote_merge.Prelude.{
  ℕ, ◌+◌, ◌*◌, ◌/◌, ◌%◌, ◌^◌, ◌≤◌, ◌<◌, false, [], ◌∷◌, ◌++◌, ok, err, length, take, drop, ltb,
  if◌then◌else◌, ◌≡◌, refl, sym, ap, ◌∙◌, arith, Bool-cases, inl, inr, All, take-append-drop,
  length-append, length-take,
}
use remote_merge.Text.{Bytes}
use remote_merge.Framing.{
  max_frame_size, to_be_bytes, from_be_bytes, write_frame, read_exact, read_frame, length_of,
  invalid_data,
}

bytes_of_length :
    (n : ℕ)
    → n ≤ max_frame_size
    → from_be_bytes
        (n % 2 ^ 32 / 2 ^ 24 % 256)
        (n % 2 ^ 32 / 2 ^ 16 % 256)
        (n % 2 ^ 32 / 2 ^ 8 % 256)
        (n % 2 ^ 32 % 256)
      ≡ n
unfolding from_be_bytes
bytes_of_length n h = omega arith

take-append : (xs ys : Bytes) → take (length xs) (xs ++ ys) ≡ xs
take-append [] ys = refl
take-append (x ∷ xs) ys = ap (λ (t : Bytes). x ∷ t) (take-append xs ys)

drop-append : (xs ys : Bytes) → drop (length xs) (xs ++ ys) ≡ ys
drop-append [] ys = refl
drop-append (x ∷ xs) ys = drop-append xs ys

read_exact-append : (xs ys : Bytes) → read_exact (length xs) (xs ++ ys) ≡ ok (xs, ys)
unfolding read_exact
read_exact-append xs ys =
    let enough : ltb (length (xs ++ ys)) (length xs) ≡ false =
      ground (arith, length-append xs ys) in
    rw (enough, take-append xs ys, drop-append xs ys) refl

-- After a head of four bytes, the payload is what the head counts.
read_frame-head :
    (a b c d : ℕ) (s : Bytes)
    → read_frame (a ∷ b ∷ c ∷ d ∷ s) ≡ (
        if ltb max_frame_size (from_be_bytes a b c d)
        then err (invalid_data (from_be_bytes a b c d))
        else read_exact (from_be_bytes a b c d) s)
unfolding read_frame read_exact length_of
read_frame-head a b c d s =
    let enough : ltb (length (a ∷ b ∷ c ∷ d ∷ s)) 4 ≡ false = ground arith in
    rw (read_frame, enough) refl

write_frame-within :
    (payload : Bytes)
    → length payload ≤ max_frame_size
    → write_frame payload ≡ ok (to_be_bytes (length payload % 2 ^ 32) ++ payload)
unfolding write_frame to_be_bytes
write_frame-within payload h =
    let fits : ltb max_frame_size (length payload) ≡ false = ground arith in
    rw (write_frame, fits) refl

-- A payload within the limit is written, and reading what was written gives it back, whatever
-- follows it in the stream, and leaves exactly what follows.
pub read_frame-write_frame :
    (payload rest : Bytes)
    → length payload ≤ max_frame_size
    → (frame : Bytes) × (write_frame payload ≡ ok frame)
      × (read_frame (frame ++ rest) ≡ ok (payload, rest))
unfolding write_frame to_be_bytes
read_frame-write_frame payload rest h =
    let fits : ltb max_frame_size (length payload) ≡ false = ground arith in
    (
      to_be_bytes (length payload % 2 ^ 32) ++ payload,
      write_frame-within payload h,
      read_frame-head _ _ _ _ (payload ++ rest)
          ∙ rw (bytes_of_length (length payload) h, fits) (read_exact-append payload rest),
    )

head_of_bytes :
    (a b c d : ℕ)
    → a < 256
    → b < 256
    → c < 256
    → d < 256
    → to_be_bytes (from_be_bytes a b c d % 2 ^ 32) ≡ a ∷ b ∷ c ∷ d ∷ []
unfolding to_be_bytes from_be_bytes
head_of_bytes a b c d ha hb hc hd =
    let n = a * 2 ^ 24 + b * 2 ^ 16 + c * 2 ^ 8 + d in
    let first : n % 2 ^ 32 / 2 ^ 24 % 256 ≡ a = omega arith in
    let second : n % 2 ^ 32 / 2 ^ 16 % 256 ≡ b = omega arith in
    let third : n % 2 ^ 32 / 2 ^ 8 % 256 ≡ c = omega arith in
    let fourth : n % 2 ^ 32 % 256 ≡ d = omega arith in rw (first, second, third, fourth) refl

-- Where every byte of the stream is below 256, what is read is what writing the payload would have put
-- at the head of the stream, and what is left is the rest of it.
pub write_frame-read_frame :
    (stream payload rest : Bytes)
    → All (λ byte. byte < 256) stream
    → read_frame stream ≡ ok (payload, rest)
    → (frame : Bytes) × (write_frame payload ≡ ok frame) × (stream ≡ frame ++ rest)
unfolding read_frame read_exact length_of write_frame
write_frame-read_frame [] payload rest bs h = absurd (ground arith)
write_frame-read_frame (a ∷ []) payload rest bs h = absurd (ground arith)
write_frame-read_frame (a ∷ b ∷ []) payload rest bs h = absurd (ground arith)
write_frame-read_frame (a ∷ b ∷ c ∷ []) payload rest bs h = absurd (ground arith)
write_frame-read_frame (a ∷ b ∷ c ∷ d ∷ s) payload rest (ha, (hb, (hc, (hd, hs)))) h =
    let n = from_be_bytes a b c d in
    let found = sym (read_frame-head a b c d s) ∙ h in
    elim (Bool-cases (ltb max_frame_size n)) [
      | inl long ↦ absurd (ground arith)
      | inr fits ↦ elim (Bool-cases (ltb (length s) n)) [
        | inl short ↦ absurd (ground arith)
        | inr enough ↦
            let fewer : n ≤ length s = ground arith in
            let allowed : n ≤ max_frame_size = ground arith in
            let taken : take n s ≡ payload = ground arith in
            let left_over : drop n s ≡ rest = ground arith in
            let size : length payload ≡ n = ap length (sym taken) ∙ length-take n s ∙ omega arith in
            let same_stream : s ≡ payload ++ rest =
              sym (take-append-drop n s) ∙ rw (taken, left_over) refl in
            (
              a ∷ b ∷ c ∷ d ∷ payload,
              write_frame-within payload (omega arith)
                  ∙ ap (λ (m : ℕ). ok (to_be_bytes (m % 2 ^ 32) ++ payload)) size
                  ∙ ap (λ (head : Bytes). ok (head ++ payload)) (head_of_bytes a b c d ha hb hc hd),
              ap (λ (t : Bytes). a ∷ b ∷ c ∷ d ∷ t) same_stream,
            )
      ]
    ]
