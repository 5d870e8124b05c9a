-- ===== src/Frame/Laws.antt =====
-- The masking and the header of a frame, in numbers.
use Prim.Native.Nat.{bit_and, bit_or}
use storefs.Prelude.{
  ℕ, ◌+◌, ◌*◌, ◌/◌, ◌%◌, ◌^◌, ◌≤◌, ◌<◌, ◌≡◌, refl, ◌∙◌, Bool, true, false, not, [], ◌∷◌, arith,
  length, get_or, ◌==◌,
}
use storefs.Prelude.Bits.{or_shifted, and_mask, xor_twice, passes, passes_each}
use storefs.Prelude.Text.{Bytes}
use storefs.Frame.{frame_header, masked_from, big_endian}

-- Masking by the same bytes gives the text back.
pub masked_from_twice : (i : ℕ) (mask s : Bytes) → masked_from i mask (masked_from i mask s) ≡ s
unfolding masked_from
masked_from_twice i mask [] = refl
masked_from_twice i mask (c ∷ s) =
    rw (xor_twice c (get_or mask (i % 4) 0), masked_from_twice (i + 1) mask s)

pub length-masked_from : (i : ℕ) (mask s : Bytes) → length (masked_from i mask s) ≡ length s
unfolding masked_from
length-masked_from i mask [] = refl
length-masked_from i mask (c ∷ s) = omega (arith, length-masked_from (i + 1) mask s)

-- The mask bit and the seven bits below it.
abbrev keeps_bit : ℕ → Bool
keeps_bit n = not (bit_and (0x80 + n) 0x80 == 0)

mask_bits : passes keeps_bit 128 ≡ true
unfolding passes
mask_bits = refl

pub mask_bit : (n : ℕ) → n < 128 → (bit_and (bit_or 0x80 n) 0x80 == 0) ≡ false
mask_bit n h = rw (or_shifted 7 1 n h) (ground (arith, passes_each keeps_bit 128 n h mask_bits))

pub low_bits : (n : ℕ) → n < 128 → bit_and (bit_or 0x80 n) 0x7f ≡ n
low_bits n h = rw (or_shifted 7 1 n h) (and_mask 7 (0x80 + n) ∙ omega arith)

pub big_endian_pair :
    (n : ℕ) → n < 65536 → big_endian 0 (bit_and (n / 2 ^ 8) 0xff ∷ bit_and n 0xff ∷ []) ≡ n
unfolding big_endian
big_endian_pair n h =
    let high : ℕ = n / 2 ^ 8 % 2 ^ 8 in
    let first : bit_or 0 high ≡ high = or_shifted 8 0 high (omega arith) ∙ omega arith in
    let kept : high * 2 ^ 8 % 2 ^ 64 ≡ high * 2 ^ 8 = omega arith in
    rw (and_mask 8 (n / 2 ^ 8), and_mask 8 n, first, kept)
      (or_shifted 8 high (n % 2 ^ 8) (omega arith) ∙ omega arith)

pub frame_header_short :
    (n : ℕ) (mask : Bytes) → n < 126 → frame_header n mask ≡ 0x81 ∷ bit_or 0x80 n ∷ mask
unfolding frame_header
frame_header_short n mask h = ground arith

pub frame_header_long :
    (n : ℕ) (mask : Bytes)
    → 126 ≤ n
    → frame_header n mask
      ≡ 0x81 ∷ bit_or 0x80 126 ∷ bit_and (n / 2 ^ 8) 0xff ∷ bit_and n 0xff ∷ mask
unfolding frame_header
frame_header_long n mask h = ground arith
