-- ===== src/Frame.antt =====
-- The bytes of a websocket frame, as `ws_send_text` and `ws_recv_text` of
-- examples/rdma/c/rdmalib.c write and read them.
pub mod Laws
use Prim.Native.Nat.{bit_and, bit_or, bit_xor}
use storefs.Prelude.{ℕ, ◌+◌, ◌*◌, ◌/◌, ◌%◌, ◌^◌, [], ◌∷◌, get_or, ltb, if◌then◌else◌}
use storefs.Prelude.Text.{Bytes}

-- The frame header: FIN and text, the length in 7 or in 16 bits, and the mask.
unfoldable pub frame_header : ℕ → Bytes → Bytes
frame_header len mask =
    if ltb len 126
    then 0x81 ∷ bit_or 0x80 len ∷ mask
    else 0x81 ∷ bit_or 0x80 126 ∷ bit_and (len / 2 ^ 8) 0xff ∷ bit_and len 0xff ∷ mask

-- `s[i] ^ mask[i % 4]` from index `i` on
unfoldable pub masked_from : ℕ → Bytes → Bytes → Bytes
masked_from i mask [] = []
masked_from i mask (c ∷ s) = bit_xor c (get_or mask (i % 4) 0) ∷ masked_from (i + 1) mask s

-- `len = (len << 8) | ext[i]` over the bytes of `ext`, in 64 bits
unfoldable pub big_endian : ℕ → Bytes → ℕ
big_endian len [] = len
big_endian len (e ∷ ext) = big_endian (bit_or (len * 2 ^ 8 % 2 ^ 64) e) ext
