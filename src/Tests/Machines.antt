-- ===== src/Tests/Machines.antt =====
-- Concrete systems to run the clients on.
use storefs.Prelude.{
  ◌/◌, ◌%◌, ℕ, zero, suc, ◌≤◌, ◌<◌, ◌≡◌, ◌≢◌, inr, refl, sym, ap, ◌∙◌, false, true, none, some, [],
  ◌∷◌, ◌++◌, length, take, drop, arith, append-nil, take-append-drop, length-take, drop-append,
}
use storefs.Prelude.Text.{Bytes, codes}
use storefs.Prelude.Int.{pos}
use storefs.QpInfo.{QpInfo, qpinfo_message}
use storefs.Os.{Os, Trace}
use storefs.Ws.Stream.{Streams, consumed}

-- Stands in for the digits of a hash: the text itself, cut or filled to 32 bytes.
abbrev pub zeros : Bytes
zeros = codes "00000000000000000000000000000000"

-- Every call fails, but writes take all that they are given.
abbrev pub deaf : Os
deaf = record {
  getaddrinfo = λ t host port. none;
  socket = λ t a. none;
  connect = λ t fd a. false;
  read = λ t fd n. none;
  write = λ t fd s. some (length s);
  rand = λ t. 77;
  malloc = λ t n. none;
  get_device_list = λ t. none;
  open_device = λ t i. none;
  alloc_pd = λ t c. none;
  create_cq = λ t c n. none;
  create_qp = λ t p q. none;
  modify_qp = λ t q attr mask. 22;
  query_port = λ t c port. none;
  query_gid = λ t c port i. none;
  mtu = record { mtu_256 = 1; mtu_512 = 2; mtu_1024 = 3; mtu_2048 = 4; mtu_4096 = 5 };
  qp_num = λ q. q;
  reg_mr = λ t p buf len flags. none;
  rkey = λ m. m;
  time = λ t. 1700000000;
  gmtime = λ s. record { year = 2023; month = 11; day = 14; hour = 22; minute = 13; second = 20 };
  getpid = 4242;
  sha256 = λ s. take 32 (s ++ zeros);
  hmac = λ k s. take 32 (s ++ (k ++ zeros));
  realloc = λ t n. true;
  slist_append = λ t h. true;
  easy_init = λ t. none;
  perform = λ t r. record { done = false; status = 0; lines = []; chunks = [] };
  fopen = λ t path. none;
  fstat = λ t f. none;
  fseeko = λ t f offset. false;
  fread = λ t f n. [];
  fwrite = λ t f s. 0;
  fclose = λ t f. true;
  mmap = λ t n. none;
  memory = λ t p n. [];
}

-- The network and the memory work as far as the upgrade, whose answer does not come.
abbrev pub dropping : Os
dropping = record deaf {
  getaddrinfo = λ t host port. some (1 ∷ 2 ∷ []);
  socket = λ t a. some a;
  connect = λ t fd a. true;
  malloc = λ t n. some 9;
}

-- The socket carries the bytes `s`, as many at a time as are asked for.
abbrev pub carrying : Bytes → Os
carrying s = record deaf { read = λ t fd n. some (take n (drop (length (consumed fd t)) s)) }

rest_of : (front rest s : Bytes) → front ++ rest ≡ s → drop (length front) s ≡ rest
rest_of front rest s e = rw (← e) (drop-append front rest)

more_lem :
    (s : Bytes) (fd : ℕ) (t : Trace) (n : ℕ) (rest : Bytes)
    → consumed fd t ++ rest ≡ s
    → 0 < n
    → rest ≢ []
    → (c : ℕ) × (chunk : Bytes) × (left : Bytes) × ((carrying s).read t fd n ≡ some (c ∷ chunk))
      × (length (c ∷ chunk) ≤ n)
      × (rest ≡ (c ∷ chunk) ++ left)
more_lem s fd t n [] e h ne = absurd (ne refl)
more_lem s fd t zero (c ∷ rest) e h ne = absurd (omega arith)
more_lem s fd t (suc n) (c ∷ rest) e h ne = (
  c,
  take n rest,
  drop n rest,
  rw (rest_of (consumed fd t) (c ∷ rest) s e) refl,
  omega (arith, length-take n rest),
  ap (λ x. c ∷ x) (sym (take-append-drop n rest)),
)

at_end : (n : ℕ) → take {A = ℕ} n [] ≡ []
at_end zero = refl
at_end (suc n) = refl

pub carrying-Streams : (s : Bytes) (fd : ℕ) → Streams (carrying s) fd s
carrying-Streams s fd = record {
  more = more_lem s fd;
  ended = λ t n e.
      inr (ap some (ap (take n) (rest_of (consumed fd t) [] s (append-nil _ ∙ e)) ∙ at_end n));
}

-- A message of the server, in a frame without a mask.
abbrev pub server_frame : Bytes → Bytes
server_frame msg = 0x81 ∷ 126 ∷ length msg / 256 ∷ length msg % 256 ∷ msg

abbrev pub server_info : QpInfo
server_info = record {
  qpn = 1201;
  lid = 0;
  gid = 254 ∷ 128 ∷ 0 ∷ 0 ∷ 0 ∷ 0 ∷ 0 ∷ 0 ∷ 2 ∷ 0 ∷ 0 ∷ 255 ∷ 254 ∷ 0 ∷ 0 ∷ 1 ∷ [];
  gid_idx = 3;
  mtu_enum = pos 3;
}

-- All that the server says to a client whose request it takes.
abbrev pub server_side : Bytes
server_side =
    codes "HTTP/1.1 101 Switching Protocols\r\n\r\n"
    ++ (server_frame (codes "{\"type\":\"register_response\",\"data\":{\"success\":true}}")
        ++ server_frame (qpinfo_message (codes "qpinfo_server") server_info))

-- Every call succeeds, and the server says its part.
abbrev pub working : Os
working = record (carrying server_side) {
  getaddrinfo = λ t host port. some (1 ∷ 2 ∷ []);
  socket = λ t a. some a;
  connect = λ t fd a. true;
  malloc = λ t n. some 9;
  get_device_list = λ t. some (codes "mlx5_0" ∷ codes "mlx5_1" ∷ []);
  open_device = λ t i. some i;
  alloc_pd = λ t c. some 5;
  create_cq = λ t c n. some 6;
  create_qp = λ t p q. some 7;
  modify_qp = λ t q attr mask. 0;
  query_port = λ t c port. some 3;
  query_gid = λ t c port i. some server_info.gid;
  reg_mr = λ t p buf len flags. some 8;
}
