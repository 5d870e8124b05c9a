-- ===== src/Ws.antt =====
-- The websocket client of examples/rdma/c/rdmalib.c: `read_full`, `ws_dial`, `ws_send_text`,
-- `ws_recv_text` and `ws_close`.
pub mod Dial
pub mod Leaks
pub mod States
pub mod RoundTrip
pub mod Stream
use Prim.Native.Nat.{bit_and}
use storefs.Prelude.{
  ℕ, zero, suc, ◌-◌, ◌%◌, Bool, true, false, not, ◌&&◌, Option, none, some, List, [], ◌∷◌, ◌++◌,
  length, get_or, take, drop, ltb, leb, ◌==◌, if◌then◌else◌,
}
use storefs.Prelude.Text.{Bytes, codes, strstr, printed, c_string, same_text}
use storefs.Prelude.Decimal.{signed_decimal}
use storefs.Url.{Url, ws_parse_url, upgrade_request}
use storefs.Frame.{frame_header, masked_from, big_endian}
use storefs.Base64.{base64_encode}
use storefs.Os.{
  Resource, block, socket, addresses, Event, sent, received, drew, failed, released, acquired,
  Trace, Os, Error, silent, invalid_url, resolve_failed, connect_failed, handshake_not_sent,
  handshake_not_read, handshake_rejected, out_of_bounds, Result, ok, err, Cmd, pure, fail, emit,
  ◌>>=◌, ◌>>◌, when◌then◌else◌, taken, or_else, report,
}

abbrev is_none : Option Bytes → Bool
is_none none = true
is_none (some _) = false

-- `if (fd < 0)` behind the loop over the addresses
abbrev opened : Option ℕ → Cmd ℕ
opened none = fail connect_failed
opened (some fd) = pure fd

-- A call whose failure nobody looks at.
abbrev ignored : Result (Unit {0}) × Trace → Result (Unit {0}) × Trace
ignored (_, t) = (ok tt, t)

abbrev ignoring : Cmd (Unit {0}) → Cmd (Unit {0})
ignoring m t = ignored (m t)

module _ (os : Os) where
  -- `(unsigned char)rand()`
  unfoldable pub rand_byte : Cmd ℕ
  rand_byte t = let r = os.rand t % 256 in (ok r, drew r ∷ t)

  unfoldable pub rand_bytes : ℕ → Cmd Bytes
  rand_bytes zero = pure []
  rand_bytes (suc n) = do r ← rand_byte; rest ← rand_bytes n; pure (r ∷ rest)

  -- `write(fd, s, n) != n` is a failure.
  unfoldable pub write_all : ℕ → Bytes → Error → Cmd (Unit {0})
  write_all fd s e t = elim (os.write t fd s) [
    | none ↦ (err e, failed ∷ t)
    | some n ↦ if n == length s then (ok tt, sent fd s ∷ t) else (err e, sent fd (take n s) ∷ t)
  ]

  unfoldable pub read_some : ℕ → ℕ → Cmd Bytes
  read_some fd n t = elim (os.read t fd n) [
    | none ↦ (err silent, failed ∷ t)
    | some [] ↦ (err silent, failed ∷ t)
    | some (c ∷ s) ↦ (ok (c ∷ s), received fd (c ∷ s) ∷ t)
  ]

  -- The loop reads at least one byte in a round, so `n` rounds are enough for `n` bytes.
  unfoldable pub read_loop : ℕ → ℕ → ℕ → Cmd Bytes
  read_loop zero fd n = when n == 0 then pure [] else fail silent
  read_loop (suc fuel) fd n =
      let more = (do
        chunk ← read_some fd n
        rest ← read_loop fuel fd (n - length chunk)
        pure (chunk ++ rest)) in
      when n == 0 then pure [] else more

  unfoldable pub read_full : ℕ → ℕ → Cmd Bytes
  read_full fd n = read_loop n fd n

  -- The header and the masked payload, each by a write of its own.
  unfoldable pub send_frame : ℕ → Bytes → Bytes → Cmd (Unit {0})
  send_frame fd msg mask = do
    write_all fd (frame_header (length msg) mask) silent
    masked ← λ t. taken block silent (os.malloc t (length msg)) t
    or_else (write_all fd (masked_from 0 mask msg) silent) (emit (released (block masked)))
    emit (released (block masked))

  unfoldable pub ws_send_text : ℕ → Bytes → Cmd (Unit {0})
  ws_send_text fd msg =
      when leb 65536 (length msg)
      then fail silent
      else do mask ← rand_bytes 4; send_frame fd msg mask

  -- `ws_close`: a close frame with an empty payload; nobody looks whether it was sent.
  unfoldable pub ws_close : ℕ → Cmd (Unit {0})
  ws_close fd = do
    mask ← rand_bytes 4
    ignoring (write_all fd (0x88 ∷ 0x80 ∷ mask) silent)
    emit (released (socket fd))

  -- The payload length: 7 bits, or 16 or 64 bits that follow.
  unfoldable pub recv_length : ℕ → ℕ → Cmd ℕ
  recv_length fd len7 =
      when len7 == 126
      then (do ext ← read_full fd 2; pure (big_endian 0 ext))
      else when len7 == 127
      then (do ext ← read_full fd 8; pure (big_endian 0 ext))
      else pure len7

  unfoldable pub ws_recv_text : ℕ → ℕ → Cmd Bytes
  ws_recv_text fd bufsize = do
    hdr ← read_full fd 2
    let opcode = bit_and (get_or hdr 0 0) 0x0f
    let masked = not (bit_and (get_or hdr 1 0) 0x80 == 0)
    len ← recv_length fd (bit_and (get_or hdr 1 0) 0x7f)
    maskkey ← when masked then read_full fd 4 else pure (0 ∷ 0 ∷ 0 ∷ 0 ∷ [])
    when leb bufsize len then fail silent else do
      buf ← read_full fd len
      let text = if masked then masked_from 0 maskkey buf else buf
      when opcode == 8 then fail silent else pure text

  -- The first address that takes a connection.
  unfoldable pub connect_any : List ℕ → Cmd (Option ℕ)
  connect_any [] t = (ok none, t)
  connect_any (a ∷ rest) t = elim (os.socket t a) [
    | none ↦ connect_any rest (failed ∷ t)
    | some fd ↦
        let t' = acquired (socket fd) ∷ t in
        elim (os.connect t' fd a) [
          | true ↦ (ok (some fd), t')
          | false ↦ connect_any rest (released (socket fd) ∷ failed ∷ t')
        ]
  ]

  -- Reads byte by byte, up to an empty line or until `room` bytes are used.
  unfoldable pub read_response : ℕ → ℕ → Bytes → Cmd Bytes
  read_response zero fd resp = pure resp
  read_response (suc room) fd resp = do
    c ← read_some fd 1
    let resp' = resp ++ c
    let more = read_response room fd resp'
    when same_text (drop (length resp' - 4) resp') (codes "\r\n\r\n") then pure resp' else more

  unfoldable pub resolve : Url → Cmd (List ℕ)
  resolve url t = elim (os.getaddrinfo t url.host (printed 8 (signed_decimal url.port))) [
    | none ↦ (err resolve_failed, failed ∷ t)
    | some res ↦ (ok res, acquired (addresses 0) ∷ t)
  ]

  -- `write(fd, req, n)` with the `n` that `snprintf` returns reads past the end of `req` where the
  -- text was cut.
  send_upgrade : ℕ → Bytes → Cmd (Unit {0})
  send_upgrade fd req =
      when ltb (length req) 512 then write_all fd req handshake_not_sent else fail out_of_bounds

  check_upgrade : Bytes → Cmd (Unit {0})
  check_upgrade resp =
      when is_none (strstr (codes " 101 ") (c_string resp))
        && is_none (strstr (codes "101 Switching") (c_string resp))
      then fail handshake_rejected
      else pure tt

  -- What `ws_dial` does on the socket that it got.
  unfoldable pub upgrade : Url → ℕ → Cmd (Unit {0})
  unfolding send_upgrade check_upgrade
  upgrade url fd = do
    keybytes ← rand_bytes 16
    send_upgrade fd (upgrade_request url (printed 32 (base64_encode keybytes)))
    resp ← report handshake_not_read (read_response 2047 fd [])
    check_upgrade resp

  dial_url : Url → Cmd ℕ
  dial_url url = do
    res ← resolve url
    found ← connect_any res
    emit (released (addresses 0))
    fd ← opened found
    or_else (upgrade url fd) (emit (released (socket fd)))
    pure fd

  unfoldable pub ws_dial : Bytes → Cmd ℕ
  unfolding dial_url
  ws_dial url = elim (ws_parse_url url 256 256) [ none ↦ fail invalid_url | some u ↦ dial_url u ]
