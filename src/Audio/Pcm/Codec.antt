-- ===== src/Audio/Pcm/Codec.antt =====
-- Encoding and decoding of frames.
use voice_elf.Prelude.{
  ◌%◌, ◌/◌, zero, true, ℕ, ◌+◌, ◌*◌, ◌≡◌, refl, ◌==◌, ==_iff, ap, ◌∙◌, List, [], ◌∷◌, length, some,
  arith, suc,
}
use voice_elf.Prelude.Int.{ℤ, pos, negsuc}
use voice_elf.Audio.Pcm.{
  frame_samples, InRange, AllInRange, to_bits, of_bits, pcm16_bytes, samples_of_bytes, decode_frame,
}

bits_round_trip : (x : ℤ) → InRange x → of_bits (to_bits x % 256 + 256 * (to_bits x / 256)) ≡ x
bits_round_trip (pos n) h = ground arith
bits_round_trip (negsuc n) h = ground arith

samples_of_bytes-pcm16_bytes :
    (xs : List ℤ) → AllInRange xs → samples_of_bytes (pcm16_bytes xs) ≡ xs
unfolding samples_of_bytes pcm16_bytes
samples_of_bytes-pcm16_bytes [] h = refl
samples_of_bytes-pcm16_bytes (x ∷ xs) h =
    rw (bits_round_trip x h.0, samples_of_bytes-pcm16_bytes xs h.1) refl

pub length-pcm16_bytes : (xs : List ℤ) → length (pcm16_bytes xs) ≡ length xs * 2
unfolding pcm16_bytes
length-pcm16_bytes [] = refl
length-pcm16_bytes (x ∷ xs) = omega (arith, length-pcm16_bytes xs)

-- A frame of 512 samples in the range of an i16 survives encoding and decoding.
pub decode_frame-pcm16_bytes :
    (xs : List ℤ)
    → length xs ≡ frame_samples
    → AllInRange xs
    → decode_frame (pcm16_bytes xs) ≡ some xs
unfolding decode_frame
decode_frame-pcm16_bytes xs n h =
    let whole : (length (pcm16_bytes xs) == frame_samples * 2) ≡ true =
      (==_iff _ _).1 (length-pcm16_bytes xs ∙ rw n refl) in
    rw (whole, samples_of_bytes-pcm16_bytes xs h) refl

length-samples_of_bytes :
    (n : ℕ) (bytes : List ℕ) → length bytes ≡ n * 2 → length (samples_of_bytes bytes) ≡ n
unfolding samples_of_bytes
length-samples_of_bytes n [] e = omega arith
length-samples_of_bytes n (lo ∷ []) e = absurd (omega arith)
length-samples_of_bytes zero (lo ∷ hi ∷ rest) e = absurd (omega arith)
length-samples_of_bytes (suc n) (lo ∷ hi ∷ rest) e =
    ap suc (length-samples_of_bytes n rest (omega arith))

-- Bytes that decode are exactly 1024, and the decoded frame has exactly 512 samples.
pub decode_frame-length :
    (bytes : List ℕ) (xs : List ℤ)
    → decode_frame bytes ≡ some xs
    → (length bytes ≡ 1024) × (length xs ≡ frame_samples)
unfolding decode_frame
decode_frame-length bytes xs e = ground (arith, length-samples_of_bytes 512 bytes)
