-- ===== src/Protocol/Bounds.antt =====
-- The lengths of the client's messages, and the buffers that they are printed into.
use storefs.Prelude.{
  ℕ, ◌*◌, ◌^◌, ◌≤◌, ◌<◌, ◌≡◌, [], ◌∷◌, ◌++◌, arith, length, length-append, take_all, All, ap,
}
use storefs.Prelude.Int.{pos}
use storefs.Prelude.Text.{Bytes, codes, IsByte}
use storefs.Prelude.Decimal.{decimal, length-decimal}
use storefs.Json.{more_bytes, array_bytes}
use storefs.QpInfo.{qpinfo_message}
use storefs.Os.{Os}
use storefs.Ws.{ws_send_text}
use storefs.Protocol.{token_text, token_message, send_qpinfo_client}

length-token_text :
    (addr rkey start len : ℕ)
    → addr < 2 ^ 64
    → rkey < 2 ^ 32
    → start < 2 ^ 64
    → len < 2 ^ 64
    → length (token_text addr rkey start len) ≤ 255
unfolding token_text
length-token_text addr rkey start len a b c d = omega (
  arith,
  length-append (decimal addr) (
      codes ",\"rkey\":"
      ++ (decimal rkey
          ++ (codes ",\"start\":"
              ++ (decimal start ++ (codes ",\"length\":" ++ (decimal len ++ codes "}}")))))),
  length-append (decimal rkey) (
      codes ",\"start\":"
      ++ (decimal start ++ (codes ",\"length\":" ++ (decimal len ++ codes "}}")))),
  length-append (decimal start) (codes ",\"length\":" ++ (decimal len ++ codes "}}")),
  length-append (decimal len) (codes "}}"),
  length-decimal 19 addr (omega arith),
  length-decimal 9 rkey (omega arith),
  length-decimal 19 start (omega arith),
  length-decimal 19 len (omega arith),
)

-- The token is not cut by its buffer of 256 bytes, for a key below 2^32, and an address, a start and a
-- length below 2^64.
pub token_message-token_text :
    (addr rkey start len : ℕ)
    → addr < 2 ^ 64
    → rkey < 2 ^ 32
    → start < 2 ^ 64
    → len < 2 ^ 64
    → token_message addr rkey start len ≡ token_text addr rkey start len
unfolding token_message
token_message-token_text addr rkey start len a b c d =
    take_all 255 (token_text addr rkey start len) (length-token_text addr rkey start len a b c d)

length-more_bytes : (gid : Bytes) → All IsByte gid → length (more_bytes gid) ≤ 4 * length gid
unfolding more_bytes
length-more_bytes [] h = omega arith
length-more_bytes (x ∷ gid) (hx, h) = omega (
  arith,
  length-append (decimal x) (more_bytes gid),
  length-decimal 2 x (omega arith),
  length-more_bytes gid h,
)

length-array_bytes : (gid : Bytes) → All IsByte gid → length (array_bytes gid) ≤ 4 * length gid
unfolding array_bytes
length-array_bytes [] h = omega arith
length-array_bytes (x ∷ gid) (hx, h) = omega (
  arith,
  length-append (decimal x) (more_bytes gid),
  length-decimal 2 x (omega arith),
  length-more_bytes gid h,
)

length-qpinfo_message :
    (qpn lid gid_idx mtu : ℕ) (gid : Bytes)
    → qpn < 2 ^ 32
    → lid < 2 ^ 16
    → All IsByte gid
    → length gid ≡ 16
    → gid_idx < 2 ^ 8
    → mtu < 2 ^ 31
    → length (
        qpinfo_message
          (codes "qpinfo_client")
          (record { qpn = qpn; lid = lid; gid = gid; gid_idx = gid_idx; mtu_enum = pos mtu }))
      ≤ 511
unfolding qpinfo_message
length-qpinfo_message qpn lid gid_idx mtu gid a b c d e f =
    let tail : Bytes = codes "}}" in
    let tail1 : Bytes = codes ",\"mtu_enum\":" ++ (decimal mtu ++ tail) in
    let tail2 : Bytes = codes "],\"gid_idx\":" ++ (decimal gid_idx ++ tail1) in
    let tail3 : Bytes = codes ",\"gid\":[" ++ (array_bytes gid ++ tail2) in
    let tail4 : Bytes = codes ",\"lid\":" ++ (decimal lid ++ tail3) in
    omega (
      arith,
      length-append (decimal qpn) tail4,
      length-append (decimal lid) tail3,
      length-append (array_bytes gid) tail2,
      length-append (decimal gid_idx) tail1,
      length-append (decimal mtu) tail,
      length-decimal 9 qpn (omega arith),
      length-decimal 4 lid (omega arith),
      length-array_bytes gid c,
      length-decimal 2 gid_idx (omega arith),
      length-decimal 9 mtu (omega arith),
    )

-- What the client sends about its queue pair is the whole message, which the buffer does not cut: for a
-- number below 2^32, a lid below 2^16, a gid of 16 bytes, an index below 2^8 and an MTU below 2^31.
pub send_qpinfo_client-qpinfo_message :
    (os : Os) (fd qpn lid gid_idx mtu : ℕ) (gid : Bytes)
    → qpn < 2 ^ 32
    → lid < 2 ^ 16
    → All IsByte gid
    → length gid ≡ 16
    → gid_idx < 2 ^ 8
    → mtu < 2 ^ 31
    → send_qpinfo_client os fd
        (record { qpn = qpn; lid = lid; gid = gid; gid_idx = gid_idx; mtu_enum = pos mtu })
      ≡ ws_send_text os fd (
          qpinfo_message
            (codes "qpinfo_client")
            (record { qpn = qpn; lid = lid; gid = gid; gid_idx = gid_idx; mtu_enum = pos mtu }))
unfolding send_qpinfo_client
send_qpinfo_client-qpinfo_message os fd qpn lid gid_idx mtu gid a b c d e f =
    ap (ws_send_text os fd)
      (take_all 511 _ (length-qpinfo_message qpn lid gid_idx mtu gid a b c d e f))
