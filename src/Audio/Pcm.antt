-- ===== src/Audio/Pcm.antt =====
-- 16-bit samples and their little-endian bytes: `pcm16_bytes` of server/src/audio.rs,
-- `decode_web_vad_frame` of pipeline/session.rs, `decode_frame` and `encode_frame` of room_hub.rs.
pub mod Codec
use voice_elf.Prelude.{
  ℕ, ◌+◌, ◌-◌, ◌*◌, ◌/◌, ◌%◌, ◌<◌, ltb, ◌==◌, Bool, if◌then◌else◌, List, [], ◌∷◌, length, Option,
  none, some,
}
use voice_elf.Prelude.Int.{ℤ, pos, negsuc}

abbrev pub frame_samples : ℕ
frame_samples = 512

-- The range of an i16.
abbrev pub InRange : ℤ → Type 0
InRange (pos n) = n < 32768
InRange (negsuc n) = n < 32768

abbrev pub AllInRange : List ℤ → Type 0
AllInRange [] = Unit {0}
AllInRange (x ∷ xs) = InRange x × AllInRange xs

-- The bit pattern of an i16, as a u16.
abbrev pub to_bits : ℤ → ℕ
to_bits (pos n) = n
to_bits (negsuc n) = 65535 - n

abbrev pub of_bits : ℕ → ℤ
of_bits u = if ltb u 32768 then pos u else negsuc (65535 - u)

-- `to_le_bytes` and `from_le_bytes`
unfoldable pub pcm16_bytes : List ℤ → List ℕ
pcm16_bytes [] = []
pcm16_bytes (x ∷ xs) = to_bits x % 256 ∷ to_bits x / 256 ∷ pcm16_bytes xs

-- `chunks_exact(2)`: an odd byte at the end is left out.
unfoldable pub samples_of_bytes : List ℕ → List ℤ
samples_of_bytes [] = []
samples_of_bytes (lo ∷ []) = []
samples_of_bytes (lo ∷ hi ∷ rest) = of_bits (lo + 256 * hi) ∷ samples_of_bytes rest

unfoldable pub decode_frame : List ℕ → Option (List ℤ)
decode_frame bytes =
    if length bytes == frame_samples * 2 then some (samples_of_bytes bytes) else none
