-- ===== src/Response.antt =====
-- The buffer that collects the body of a response: `write_response` of
-- examples/rdma/c/s3rdmamultipart.c, which libcurl calls for each chunk.
pub mod Growth
pub mod Whole
use storefs.Prelude.{
  ℕ, zero, suc, ◌+◌, ◌*◌, ◌%◌, ◌^◌, Bool, List, [], ◌∷◌, ◌++◌, length, ltb, ◌==◌, if◌then◌else◌,
}
use storefs.Prelude.Text.{Bytes}

-- `response_buf_t`: `bytes` is `data`, the bytes in front of the closing NUL, so that `len` is its length.
pub record ResponseBuf : Type 0 where
  pub bytes : Bytes
  pub cap : ℕ

-- `response_buf_t resp = {0}`
abbrev pub empty : ResponseBuf
empty = record { bytes = []; cap = 0 }

-- `while (new_cap < need) new_cap *= 2`, on the 64 bits of `size_t`
unfoldable pub grow : (rounds need new_cap : ℕ) → ℕ
grow zero need new_cap = new_cap
grow (suc rounds) need new_cap =
    let rest = grow rounds need (new_cap * 2 % 2 ^ 64) in if ltb new_cap need then rest else new_cap

-- The capacity to ask for. A capacity that is not 0 reaches any need in 64 doublings.
unfoldable pub wanted_cap : (cap need : ℕ) → ℕ
unfolding grow
wanted_cap cap need = grow 64 need (if cap == 0 then 4096 else cap * 2 % 2 ^ 64)

-- The call, for a `need` of bytes.
store : (realloc : ℕ → Bool) (chunk : Bytes) → ResponseBuf → (need : ℕ) → ℕ × ResponseBuf
store realloc chunk buf need =
    if ltb buf.cap need
    then (if realloc (wanted_cap buf.cap need)
        then (length chunk, record { bytes = buf.bytes ++ chunk; cap = wanted_cap buf.cap need })
        else (0, buf))
    else (length chunk, record { bytes = buf.bytes ++ chunk; cap = buf.cap })

-- What the call returns, and the buffer behind it; `realloc` says whether there is room for as many
-- bytes.
unfoldable pub write_response : (realloc : ℕ → Bool) (chunk : Bytes) → ResponseBuf → ℕ × ResponseBuf
unfolding store
write_response realloc chunk buf =
    store realloc chunk buf ((length buf.bytes + length chunk + 1) % 2 ^ 64)

-- The buffer behind all chunks of a response; libcurl gives up where a call returns too little.
unfoldable pub collect : (realloc : ℕ → Bool) → List Bytes → ResponseBuf → ResponseBuf
unfolding write_response
collect realloc [] buf = buf
collect realloc (chunk ∷ chunks) buf =
    let (n, buf') = write_response realloc chunk buf in
    let rest = collect realloc chunks buf' in if n == length chunk then rest else buf'
