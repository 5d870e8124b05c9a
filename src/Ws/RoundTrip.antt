-- ===== src/Ws/RoundTrip.antt =====
-- `ws_send_text` and `ws_recv_text` of examples/rdma/c/rdmalib.c at the two ends of a connection.
use Prim.Native.Nat.{bit_and, bit_or}
use mathlib.Core.List.{append_cancel_left}
use storefs.Prelude.{
  ℕ, zero, suc, ◌%◌, ◌/◌, ◌^◌, ◌≤◌, ◌<◌, ◌≡◌, refl, sym, ap, ◌∙◌, ◌⊎◌, inl, inr, false, [], ◌∷◌,
  ◌++◌, append_assoc, append-nil, arith, length, ◌==◌, if◌then◌else◌,
}
use storefs.Prelude.Text.{Bytes}
use storefs.Os.{Event, sent, drew, Trace, Os, ok, Cmd, ◌>>=◌}
use storefs.Frame.{frame_header, masked_from, big_endian}
use storefs.Frame.Laws.{
  masked_from_twice, length-masked_from, mask_bit, low_bits, big_endian_pair, frame_header_short,
  frame_header_long,
}
use storefs.Ws.{
  rand_byte, rand_bytes, send_frame, write_all, read_full, recv_length, ws_recv_text, ws_send_text,
}
use storefs.Ws.Stream.{consumed, Streams, read_full_lem}

after : {d s : Bytes} (c xs tail : Bytes) → d ≡ c ++ xs → c ++ (xs ++ tail) ≡ s → d ++ tail ≡ s
after c xs tail p e = rw (p, append_assoc c xs tail) e

four_parts :
    {c1 c2 c3 c4 : Bytes} (c w x y z : Bytes)
    → c1 ≡ c ++ w
    → c2 ≡ c1 ++ x
    → c3 ≡ c2 ++ y
    → c4 ≡ c3 ++ z
    → c4 ≡ c ++ (w ++ (x ++ (y ++ z)))
four_parts c w x y z p q r u = rw (u, r, q, p) (simp append_assoc)

short_or_long : (n : ℕ) → (n < 126) ⊎ (126 ≤ n)
short_or_long n = grind arith

module _ (os : Os) (fd : ℕ) (s : Bytes) (stream : Streams os fd s) where
  -- The command gives `a` and takes the bytes `xs` off the stream.
  abbrev Takes : {A : Type 0} → Cmd A → Trace → A → Bytes → Type 0
  Takes m t a xs = (t' : Trace) × (m t ≡ (ok a, t')) × (consumed fd t' ≡ consumed fd t ++ xs)

  recv_length_short : (n : ℕ) (t : Trace) → n < 126 → recv_length os fd n t ≡ (ok n, t)
  unfolding recv_length
  recv_length_short n t h = ground arith

  recv_length_long :
      (a b : ℕ) (rest : Bytes) (t : Trace)
      → consumed fd t ++ (a ∷ b ∷ rest) ≡ s
      → Takes (recv_length os fd 126) t (big_endian 0 (a ∷ b ∷ [])) (a ∷ b ∷ [])
  unfolding recv_length
  recv_length_long a b rest t e =
      let (t', done, seen) = read_full_lem os fd s stream (a ∷ b ∷ []) rest t e in
      (t', rw (done, ◌>>=◌), seen)

  recv_run :
      (bufsize h0 h1 : ℕ) (mask body : Bytes) (t t1 t2 t3 t4 : Trace)
      → (bit_and h0 0x0f == 8) ≡ false
      → (bit_and h1 0x80 == 0) ≡ false
      → length body < bufsize
      → length mask ≡ 4
      → read_full os fd 2 t ≡ (ok (h0 ∷ h1 ∷ []), t1)
      → recv_length os fd (bit_and h1 0x7f) t1 ≡ (ok (length body), t2)
      → read_full os fd (length mask) t2 ≡ (ok mask, t3)
      → read_full os fd (length body) t3 ≡ (ok body, t4)
      → ws_recv_text os fd bufsize t ≡ (ok (masked_from 0 mask body), t4)
  unfolding ws_recv_text
  recv_run bufsize h0 h1 mask body t t1 t2 t3 t4 op bit fits four d1 d2 d3 d4 = ground arith

  -- A frame with the mask bit, whatever the form of its length.
  recv_masked :
      (bufsize h0 h1 : ℕ) (ext mask body rest : Bytes) (t : Trace)
      → consumed fd t ++ ((h0 ∷ h1 ∷ []) ++ (ext ++ (mask ++ (body ++ rest)))) ≡ s
      → (bit_and h0 0x0f == 8) ≡ false
      → (bit_and h1 0x80 == 0) ≡ false
      → ((t1 : Trace)
          → consumed fd t1 ++ (ext ++ (mask ++ (body ++ rest))) ≡ s
          → Takes (recv_length os fd (bit_and h1 0x7f)) t1 (length body) ext)
      → length mask ≡ 4
      → length body < bufsize
      → Takes
          (ws_recv_text os fd bufsize)
          t
          (masked_from 0 mask body)
          ((h0 ∷ h1 ∷ []) ++ (ext ++ (mask ++ body)))
  unfolding ws_recv_text
  recv_masked bufsize h0 h1 ext mask body rest t e op bit len four fits =
      let (t1, d1, s1) = read_full_lem os fd s stream (h0 ∷ h1 ∷ []) _ t e in
      let e1 = after (consumed fd t) (h0 ∷ h1 ∷ []) (ext ++ (mask ++ (body ++ rest))) s1 e in
      let (t2, d2, s2) = len t1 e1 in
      let e2 = after (consumed fd t1) ext (mask ++ (body ++ rest)) s2 e1 in
      let (t3, d3, s3) = read_full_lem os fd s stream mask (body ++ rest) t2 e2 in
      let e3 = after (consumed fd t2) mask (body ++ rest) s3 e2 in
      let (t4, d4, s4) = read_full_lem os fd s stream body rest t3 e3 in
      (
        t4,
        recv_run bufsize h0 h1 mask body t t1 t2 t3 t4 op bit fits four d1 d2 d3 d4,
        four_parts (consumed fd t) (h0 ∷ h1 ∷ []) ext mask body s1 s2 s3 s4,
      )

  module _ (bufsize : ℕ) (mask msg rest : Bytes) (t : Trace) (four : length mask ≡ 4)
      (fits : length msg < bufsize) where
    abbrev body : Bytes
    body = masked_from 0 mask msg

    lens : length body ≡ length msg
    lens = length-masked_from 0 mask msg

    recv_short :
        consumed fd t ++ ((frame_header (length msg) mask ++ body) ++ rest) ≡ s
        → length msg < 126
        → Takes (ws_recv_text os fd bufsize) t msg (frame_header (length msg) mask ++ body)
    recv_short e h =
        let shape = frame_header_short (length msg) mask h in
        let (t', d, seen) =
          recv_masked bufsize 0x81 (bit_or 0x80 (length msg)) [] mask body rest t
            (cc
              (append_assoc mask body rest, ap (λ x. consumed fd t ++ ((x ++ body) ++ rest)) shape))
            refl (mask_bit (length msg) (omega arith))
            (λ t1 e1. (
              t1,
              rw (low_bits (length msg) (omega arith), lens) (recv_length_short (length msg) t1 h),
              sym (append-nil _),
            ))
            four (omega (arith, lens)) in
        (t', d ∙ ap (λ x. (ok x, t')) (masked_from_twice 0 mask msg), rw shape seen)

    abbrev ext : Bytes
    ext = bit_and (length msg / 2 ^ 8) 0xff ∷ bit_and (length msg) 0xff ∷ []

    recv_long :
        consumed fd t ++ ((frame_header (length msg) mask ++ body) ++ rest) ≡ s
        → 126 ≤ length msg
        → length msg < 65536
        → Takes (ws_recv_text os fd bufsize) t msg (frame_header (length msg) mask ++ body)
    recv_long e h k =
        let shape = frame_header_long (length msg) mask h in
        let (t', d, seen) =
          recv_masked bufsize 0x81 (bit_or 0x80 126) ext mask body rest t
            (cc
              (append_assoc mask body rest, ap (λ x. consumed fd t ++ ((x ++ body) ++ rest)) shape))
            refl refl
            (λ t1 e1.
              let (t2, d2, s2) =
                recv_length_long (bit_and (length msg / 2 ^ 8) 0xff) (bit_and (length msg) 0xff) _
                  t1 e1 in
              (t2, d2 ∙ ap (λ n. (ok n, t2)) (big_endian_pair (length msg) k ∙ sym lens), s2))
            four (omega (arith, lens)) in
        (t', d ∙ ap (λ x. (ok x, t')) (masked_from_twice 0 mask msg), rw shape seen)

    -- A frame in the form of `ws_send_text` is read whole, and nothing behind it.
    pub recv_frame :
        consumed fd t ++ ((frame_header (length msg) mask ++ body) ++ rest) ≡ s
        → length msg < 65536
        → Takes (ws_recv_text os fd bufsize) t msg (frame_header (length msg) mask ++ body)
    recv_frame e k = elim (short_or_long (length msg)) [
      | inl h ↦ recv_short e h
      | inr h ↦ recv_long e h k
    ]

-- All that was written to a socket so far.
abbrev put : ℕ → Event → Bytes
put fd (sent f s) = if f == fd then s else []
put fd _ = []

abbrev pub written : ℕ → Trace → Bytes
written fd [] = []
written fd (e ∷ t) = written fd t ++ put fd e

module _ (os : Os) (fd : ℕ) where
  rand_bytes_lem :
      (n : ℕ) (t : Trace)
      → (mask : Bytes) × (t' : Trace) × (rand_bytes os n t ≡ (ok mask, t'))
        × (length mask ≡ n)
        × (written fd t' ≡ written fd t)
  unfolding rand_bytes rand_byte
  rand_bytes_lem zero t = ([], t, refl, refl, refl)
  rand_bytes_lem (suc n) t =
      let (mask, t', done, len, same) = rand_bytes_lem n (drew (os.rand t % 256) ∷ t) in
      ((os.rand t % 256) ∷ mask, t', rw (done, ◌>>=◌), ap suc len, same ∙ append-nil _)

  send_frame-written :
      (msg mask : Bytes) (t t' : Trace)
      → send_frame os fd msg mask t ≡ (ok tt, t')
      → written fd t' ≡ written fd t ++ (frame_header (length msg) mask ++ masked_from 0 mask msg)
  unfolding send_frame write_all
  send_frame-written msg mask t t' h = ground (
    arith,
    append_assoc (written fd t) (frame_header (length msg) mask) (masked_from 0 mask msg),
    append-nil (written fd t ++ frame_header (length msg) mask),
    append-nil ((written fd t ++ frame_header (length msg) mask) ++ masked_from 0 mask msg),
  )

  send_run :
      (msg mask : Bytes) (t t1 t' : Trace)
      → rand_bytes os 4 t ≡ (ok mask, t1)
      → ws_send_text os fd msg t ≡ (ok tt, t')
      → (length msg < 65536) × (send_frame os fd msg mask t1 ≡ (ok tt, t'))
  unfolding ws_send_text
  send_run msg mask t t1 t' r h = ground arith

  -- A `ws_send_text` that succeeds has added one frame of the message, under some mask of four bytes, to
  -- what was written to the socket, and the message has fewer than 65536 bytes.
  pub ws_send_text-frame :
      (msg : Bytes) (t : Trace) {t' : Trace}
      → ws_send_text os fd msg t ≡ (ok tt, t')
      → (mask : Bytes) × (length mask ≡ 4)
        × (length msg < 65536)
        × (written fd t'
            ≡ written fd t ++ (frame_header (length msg) mask ++ masked_from 0 mask msg))
  ws_send_text-frame msg t {t'} h =
      let (mask, t1, done, four, same) = rand_bytes_lem 4 t in
      let (fits, seen) = send_run msg mask t t1 t' done h in
      (mask, four, fits, rw (← same) (send_frame-written msg mask t1 t' seen))

-- What a client sends, the other end of the connection reads: if `ws_send_text` succeeds with `msg`,
-- and another program's socket carries the bytes that it wrote, `ws_recv_text` there returns `msg`
-- into a buffer with room for it and a NUL, however the reads cut the stream, and takes the whole
-- frame off it.
pub recv-send :
    (os peer : Os) (fd fd' bufsize : ℕ) (msg frame : Bytes) (t t' : Trace)
    → ws_send_text os fd msg t ≡ (ok tt, t')
    → written fd t' ≡ written fd t ++ frame
    → Streams peer fd' frame
    → length msg < bufsize
    → (p' : Trace) × (ws_recv_text peer fd' bufsize [] ≡ (ok msg, p')) × (consumed fd' p' ≡ frame)
recv-send os peer fd fd' bufsize msg frame t t' h w stream fits =
    let (mask, four, small, seen) = ws_send_text-frame os fd msg t h in
    let shape : frame ≡ frame_header (length msg) mask ++ masked_from 0 mask msg =
      append_cancel_left (written fd t) _ _ (sym w ∙ seen) in
    let (p', done, taken) =
      recv_frame peer fd' frame stream bufsize mask msg [] [] four fits (append-nil _ ∙ sym shape)
        small in
    (p', done, taken ∙ sym shape)
