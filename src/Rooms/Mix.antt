-- ===== src/Rooms/Mix.antt =====
-- `mix_frames` of server/src/room_hub.rs: the average of the speakers' frames. The index into a frame
-- is in bounds, since all frames have 512 samples; `at` answers 0 outside.
pub mod Average
use voice_elf.Prelude.{
  ℕ, zero, suc, ◌+◌, ◌-◌, ◌/◌, ◌%◌, max, List, [], ◌∷◌, map, length, get_or, ltb, if◌then◌else◌,
}
use voice_elf.Prelude.Int.{ℤ, pos, negsuc, pos_part, neg_part, ◌+ℤ◌, sub_ℕ, ltb_ℤ}
use voice_elf.Audio.Pcm.{frame_samples}

-- The i32 with the bits of a number, and the number of its bits: what does not fit wraps.
abbrev pub i32_of_bits : ℕ → ℤ
i32_of_bits n = if ltb n 2147483648 then pos n else negsuc (4294967295 - n)

abbrev pub i32_bits : ℤ → ℕ
i32_bits (pos n) = n % 4294967296
i32_bits (negsuc n) = 4294967295 - n % 4294967296

unfoldable pub wrap_i32 : ℤ → ℤ
wrap_i32 x = i32_of_bits (i32_bits x)

abbrev pub negated : ℕ → ℤ
negated zero = pos 0
negated (suc q) = negsuc q

-- i32 division truncates towards zero. By zero, which is the divisor of no frames but a multiple of
-- 2^32 of them, the code panics.
unfoldable pub div_trunc : ℤ → ℤ → ℤ
div_trunc (pos n) (pos d) = pos (n / d)
div_trunc (negsuc n) (pos d) = negated (suc n / d)
div_trunc (pos n) (negsuc d) = negated (n / suc d)
div_trunc (negsuc n) (negsuc d) = pos (suc n / suc d)

unfoldable pub clamp_i16 : ℤ → ℤ
clamp_i16 x =
    if ltb_ℤ x (negsuc 32767) then negsuc 32767 else if ltb_ℤ (pos 32767) x then pos 32767 else x

-- `(from..from + n)`
abbrev pub indices : ℕ → ℕ → List ℕ
indices from zero = []
indices from (suc n) = from ∷ indices (suc from) n

abbrev pub at : List ℤ → ℕ → ℤ
at frame index = get_or frame index (pos 0)

-- `sum::<i32>()`, with the sum so far.
unfoldable pub column_sum : ℤ → List (List ℤ) → ℕ → ℤ
column_sum sum [] index = sum
column_sum sum (frame ∷ rest) index = column_sum (wrap_i32 (sum +ℤ at frame index)) rest index

unfoldable pub mix_sample : List (List ℤ) → ℕ → ℤ
mix_sample frames index =
    clamp_i16 (div_trunc (column_sum (pos 0) frames index) (wrap_i32 (pos (max (length frames) 1))))

unfoldable pub mix_frames : List (List ℤ) → List ℤ
mix_frames frames = map (mix_sample frames) (indices 0 frame_samples)
