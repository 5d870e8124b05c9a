-- ===== src/Base64.antt =====
-- `base64_encode` of examples/rdma/c/rdmalib.c, which writes the key of the websocket handshake.
pub mod RoundTrip
use Prim.Native.Nat.{bit_and, bit_or}
use storefs.Prelude.{ℕ, ◌*◌, ◌/◌, ◌^◌, List, [], ◌∷◌, ◌++◌, get_or}
use storefs.Prelude.Text.{Bytes, codes}

abbrev pub tbl : Bytes
tbl = codes "ABCDEFGHIJKLMNOPQRSTUVWXYZabcdefghijklmnopqrstuvwxyz0123456789+/"

-- `tbl[(v >> shift) & 0x3F]`
letter : ℕ → ℕ → ℕ
letter v shift = get_or tbl (bit_and (v / 2 ^ shift) 0x3f) 0

-- One round of the loop for each three bytes; the tests `i + 1 < inlen` and `i + 2 < inlen` are the
-- clauses. Each byte is shifted into place and joined by `|`.
unfoldable pub base64_encode : Bytes → Bytes
unfolding letter
base64_encode [] = []
base64_encode (a ∷ []) = let v = a * 2 ^ 16 in letter v 18 ∷ letter v 12 ∷ b'=' ∷ b'=' ∷ []
base64_encode (a ∷ b ∷ []) =
    let v = bit_or (a * 2 ^ 16) (b * 2 ^ 8) in letter v 18 ∷ letter v 12 ∷ letter v 6 ∷ b'=' ∷ []
base64_encode (a ∷ b ∷ c ∷ rest) =
    let v = bit_or (bit_or (a * 2 ^ 16) (b * 2 ^ 8)) c in
    letter v 18 ∷ letter v 12 ∷ letter v 6 ∷ letter v 0 ∷ base64_encode rest
