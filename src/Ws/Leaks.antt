-- ===== src/Ws/Leaks.antt =====
-- What the websocket client holds when a call of it ends.
use storefs.Prelude.{
  ℕ, zero, suc, ◌-◌, ◌%◌, ◌≡◌, refl, true, List, [], ◌∷◌, arith, length, leb, ◌==◌,
}
use storefs.Prelude.Text.{Bytes}
use storefs.Os.{Resource, drew, Trace, Os, Error, ok, ◌>>=◌}
use storefs.Os.Live.{
  holds, drop_first, live, sound, Holds, Neutral, Neutral-bind, Neutral-pure, Neutral-fail,
  Neutral-when,
}
use storefs.Ws.{
  rand_byte, rand_bytes, write_all, read_some, read_loop, read_full, send_frame, ws_send_text,
  ws_close, recv_length, ws_recv_text,
}

module _ (os : Os) where
  Neutral-rand_byte : Neutral (rand_byte os)
  unfolding rand_byte live sound
  Neutral-rand_byte = record { keeps = λ xs t h. h }

  pub Neutral-rand_bytes : (n : ℕ) → Neutral (rand_bytes os n)
  unfolding rand_bytes
  Neutral-rand_bytes zero = record { keeps = λ xs t h. h }
  Neutral-rand_bytes (suc n) =
      Neutral-bind Neutral-rand_byte λ r. Neutral-bind (Neutral-rand_bytes n) λ rest. Neutral-pure _

  pub Neutral-write_all : (fd : ℕ) (s : Bytes) (e : Error) → Neutral (write_all os fd s e)
  unfolding write_all live sound
  Neutral-write_all fd s e = record { keeps = λ xs t h. ground arith }

  pub Neutral-read_some : (fd n : ℕ) → Neutral (read_some os fd n)
  unfolding read_some live sound
  Neutral-read_some fd n = record { keeps = λ xs t h. ground arith }

  Neutral-read_loop : (fuel fd n : ℕ) → Neutral (read_loop os fuel fd n)
  unfolding read_loop
  Neutral-read_loop zero fd n = Neutral-when (n == 0) (Neutral-pure _) (Neutral-fail _)
  Neutral-read_loop (suc fuel) fd n = Neutral-when (n == 0) (Neutral-pure _) (
      Neutral-bind (Neutral-read_some fd n)
        λ c. Neutral-bind (Neutral-read_loop fuel fd (n - length c)) λ r. Neutral-pure _)

  Neutral-read_full : (fd n : ℕ) → Neutral (read_full os fd n)
  unfolding read_full
  Neutral-read_full fd n = Neutral-read_loop n fd n

  Neutral-send_frame : (fd : ℕ) (msg mask : Bytes) → Neutral (send_frame os fd msg mask)
  unfolding send_frame write_all live sound
  Neutral-send_frame fd msg mask = record { keeps = λ xs t h. ground arith }

  pub Neutral-ws_send_text : (fd : ℕ) (msg : Bytes) → Neutral (ws_send_text os fd msg)
  unfolding ws_send_text
  Neutral-ws_send_text fd msg =
      Neutral-when (leb 65536 (length msg)) (Neutral-fail _)
        (Neutral-bind (Neutral-rand_bytes 4) λ mask. Neutral-send_frame fd msg mask)

  Neutral-recv_length : (fd n : ℕ) → Neutral (recv_length os fd n)
  unfolding recv_length
  Neutral-recv_length fd n =
      Neutral-when (n == 126) (Neutral-bind (Neutral-read_full fd 2) λ x. Neutral-pure _) (
        Neutral-when (n == 127) (Neutral-bind (Neutral-read_full fd 8) λ x. Neutral-pure _)
          (Neutral-pure n))

  pub Neutral-ws_recv_text : (fd bufsize : ℕ) → Neutral (ws_recv_text os fd bufsize)
  unfolding ws_recv_text
  Neutral-ws_recv_text fd bufsize = Neutral-bind (Neutral-read_full fd 2) λ hdr.
      Neutral-bind (Neutral-recv_length fd _) λ len.
        Neutral-bind (Neutral-when _ (Neutral-read_full fd 4) (Neutral-pure _)) λ key.
          Neutral-when (leb bufsize len) (Neutral-fail _) (
            Neutral-bind (Neutral-read_full fd len)
              λ buf. Neutral-when _ (Neutral-fail _) (Neutral-pure _))

  rand_bytes_ok :
      (n : ℕ) (t : Trace) → (bs : Bytes) × (t' : Trace) × (rand_bytes os n t ≡ (ok bs, t'))
  unfolding rand_bytes rand_byte
  rand_bytes_ok zero t = ([], t, refl)
  rand_bytes_ok (suc n) t =
      let (bs, t', e) = rand_bytes_ok n (drew (os.rand t % 256) ∷ t) in
      ((os.rand t % 256) ∷ bs, t', rw (e, ◌>>=◌))

  close_run :
      (fd : ℕ) (bs : Bytes) (xs : List Resource) (t t1 : Trace)
      → rand_bytes os 4 t ≡ (ok bs, t1)
      → Holds xs (rand_bytes os 4 t).1
      → holds (Resource.socket fd) xs ≡ true
      → Holds (drop_first (Resource.socket fd) xs) (ws_close os fd t).1
  unfolding ws_close write_all live sound
  close_run fd bs xs t t1 e (h, k) own = ground arith

  -- `ws_close` releases the socket, whatever comes of the frame that it sends.
  pub ws_close_lem :
      (fd : ℕ) (xs : List Resource) (t : Trace)
      → Holds xs t
      → holds (Resource.socket fd) xs ≡ true
      → Holds (drop_first (Resource.socket fd) xs) (ws_close os fd t).1
  ws_close_lem fd xs t h own =
      let (bs, t1, e) = rand_bytes_ok 4 t in
      close_run fd bs xs t t1 e ((Neutral-rand_bytes 4).keeps xs t h) own

  close_ends :
      (fd : ℕ) (bs : Bytes) (t t1 : Trace)
      → rand_bytes os 4 t ≡ (ok bs, t1)
      → (ws_close os fd t).0 ≡ ok tt
  unfolding ws_close
  close_ends fd bs t t1 e = rw (e, ◌>>=◌) refl

  pub ws_close_ok : (fd : ℕ) (t : Trace) → (ws_close os fd t).0 ≡ ok tt
  ws_close_ok fd t = let (bs, t1, e) = rand_bytes_ok 4 t in close_ends fd bs t t1 e
