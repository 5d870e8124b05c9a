-- ===== src/Ws/States.antt =====
-- The websocket leaves queue pairs alone.
use storefs.Prelude.{ℕ, zero, suc, ◌-◌, ◌==◌, List, [], ◌∷◌, ◌++◌, length, leb, get_or, not, arith}
use storefs.Prelude.Text.{Bytes}
use storefs.Os.{QpState, socket, released, Os, Error, silent, emit, ◌>>◌}
use storefs.Os.Live.{bind}
use storefs.Os.Rules.{when_lem, pure_lem, fail_lem}
use storefs.Os.States.{states, Still, still_lem}
use Prim.Native.Nat.{bit_and}
use storefs.Frame.{big_endian}
use storefs.Ws.{
  ignoring, rand_byte, rand_bytes, write_all, read_some, read_loop, read_full, send_frame,
  ws_send_text, ws_close, recv_length, ws_recv_text,
}

module _ (os : Os) (ss : List QpState) where
  rand_byte_lem : Still ss (rand_byte os)
  unfolding rand_byte states
  rand_byte_lem = still_lem (rand_byte os) λ t h. h

  rand_bytes_lem : (n : ℕ) → Still ss (rand_bytes os n)
  unfolding rand_bytes
  rand_bytes_lem zero = pure_lem []
  rand_bytes_lem (suc n) =
      bind rand_byte_lem λ r. bind (rand_bytes_lem n) λ rest. pure_lem (r ∷ rest)

  write_all_lem : (fd : ℕ) (s : Bytes) (e : Error) → Still ss (write_all os fd s e)
  unfolding write_all states
  write_all_lem fd s e = still_lem (write_all os fd s e) λ t h. ground arith

  read_some_lem : (fd n : ℕ) → Still ss (read_some os fd n)
  unfolding read_some states
  read_some_lem fd n = still_lem (read_some os fd n) λ t h. ground arith

  read_loop_lem : (fuel fd n : ℕ) → Still ss (read_loop os fuel fd n)
  unfolding read_loop
  read_loop_lem zero fd n = when_lem (n == 0) (pure_lem []) (fail_lem silent)
  read_loop_lem (suc fuel) fd n = when_lem (n == 0) (pure_lem []) (
      bind (read_some_lem fd n)
        λ c. bind (read_loop_lem fuel fd (n - length c)) λ rest. pure_lem (c ++ rest))

  read_full_lem : (fd n : ℕ) → Still ss (read_full os fd n)
  unfolding read_full
  read_full_lem fd n = read_loop_lem n fd n

  send_frame_lem : (fd : ℕ) (msg mask : Bytes) → Still ss (send_frame os fd msg mask)
  unfolding send_frame write_all states
  send_frame_lem fd msg mask = still_lem (send_frame os fd msg mask) λ t h. ground arith

  pub ws_send_text_lem : (fd : ℕ) (msg : Bytes) → Still ss (ws_send_text os fd msg)
  unfolding ws_send_text
  ws_send_text_lem fd msg =
      when_lem (leb 65536 (length msg)) (fail_lem silent)
        (bind (rand_bytes_lem 4) λ mask. send_frame_lem fd msg mask)

  close_lem :
      (fd : ℕ) (mask : Bytes)
      → Still ss
          (do ignoring (write_all os fd (0x88 ∷ 0x80 ∷ mask) silent); emit (released (socket fd)))
  unfolding write_all states
  close_lem fd mask = still_lem _ λ t h. ground arith

  pub ws_close_states : (fd : ℕ) → Still ss (ws_close os fd)
  unfolding ws_close
  ws_close_states fd = bind (rand_bytes_lem 4) λ mask. close_lem fd mask

  recv_length_lem : (fd n : ℕ) → Still ss (recv_length os fd n)
  unfolding recv_length
  recv_length_lem fd n =
      when_lem (n == 126) (bind (read_full_lem fd 2) λ x. pure_lem (big_endian 0 x)) (
        when_lem (n == 127) (bind (read_full_lem fd 8) λ x. pure_lem (big_endian 0 x)) (pure_lem n))

  pub ws_recv_text_lem : (fd bufsize : ℕ) → Still ss (ws_recv_text os fd bufsize)
  unfolding ws_recv_text
  ws_recv_text_lem fd bufsize = bind (read_full_lem fd 2) λ hdr.
      bind (recv_length_lem fd (bit_and (get_or hdr 1 0) 0x7f)) λ len.
        bind
          (when_lem (not (bit_and (get_or hdr 1 0) 0x80 == 0)) (read_full_lem fd 4)
            (pure_lem (0 ∷ 0 ∷ 0 ∷ 0 ∷ [])))
          λ key. when_lem (leb bufsize len) (fail_lem silent) (
            bind (read_full_lem fd len)
              λ buf. when_lem (bit_and (get_or hdr 0 0) 0x0f == 8) (fail_lem silent) (pure_lem _))
