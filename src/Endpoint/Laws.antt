-- ===== src/Endpoint/Laws.antt =====
-- The URL and the host that are made of an http or https endpoint.
use storefs.Prelude.{
  none, some, length-take, ℕ, ◌+◌, ◌-◌, ◌≤◌, ◌<◌, ◌≡◌, refl, ap, ◌∙◌, sym, append-nil, Option, ◌^◌,
  [], ◌∷◌, Bool, true, false, some, ◌++◌, length, take, leb, if◌then◌else◌, arith, take_all,
  length-append, Bool-cases, inl, inr,
}
use storefs.Prelude.Text.{strchr, Bytes, codes, starts_with, strstr, printed, Lacks}
use storefs.Prelude.Int.{pos}
use storefs.Prelude.Decimal.{
  decimal, decimal-AllDigits, atoi, atoi-decimal, digits-Lacks, length-decimal,
}
use storefs.Prelude.Search.{strchr_found, strchr-none, before-append, Lacks-append}
use storefs.Url.{split_port, ws_parse_url}
use storefs.Endpoint.{after_scheme, host_of, ws_url_from_endpoint, host_from_endpoint}

-- An endpoint: the scheme, and the server with its port.
abbrev pub endpoint_of : Bool → Bytes → Bytes
endpoint_of false server = codes "http://" ++ server
endpoint_of true server = codes "https://" ++ server

abbrev pub control : Bytes
control = codes "/rdma-ctrl"

abbrev url_of : Bool → Bytes → Bytes
url_of false server = codes "ws://" ++ (server ++ control)
url_of true server = codes "wss://" ++ (server ++ control)

url_fits :
    (secure : Bool) (server : Bytes) (outlen : ℕ)
    → length server + 17 ≤ outlen
    → length (url_of secure server) ≤ outlen - 1
url_fits false server outlen room = omega (arith, length-append server control)
url_fits true server outlen room = omega (arith, length-append server control)

cut_lem :
    (hostlen : ℕ) (p : Bytes)
    → take (if leb hostlen (length p) then hostlen - 1 else length p) p ≡ printed hostlen p
cut_lem hostlen p = elim (Bool-cases (leb hostlen (length p))) [
  | inl e ↦ rw e
  | inr e ↦ rw (e, take_all (length p) p (ground arith), take_all (hostlen - 1) p (ground arith))
]

after_scheme_lem :
    (secure : Bool) (server : Bytes) → after_scheme (endpoint_of secure server) ≡ server
unfolding after_scheme strstr starts_with
after_scheme_lem false server = refl
after_scheme_lem true server = refl

ws_url_lem :
    (secure : Bool) (server : Bytes) (outlen : ℕ)
    → ws_url_from_endpoint (endpoint_of secure server) outlen
      ≡ printed outlen (url_of secure server)
unfolding ws_url_from_endpoint after_scheme strstr starts_with
ws_url_lem false server outlen = refl
ws_url_lem true server outlen = refl

parse_lem :
    (secure : Bool) (server : Bytes)
    → Lacks b'/' server
    → length server < 300
    → ws_parse_url (url_of secure server) 256 256 ≡ some (split_port server 256 control)
unfolding ws_parse_url strstr starts_with
parse_lem false server lacks short =
    rw (strchr_found b'/' server (codes "rdma-ctrl") lacks, before-append server control)
      (ground arith)
parse_lem true server lacks short =
    rw (strchr_found b'/' server (codes "rdma-ctrl") lacks, before-append server control)
      (ground arith)

-- A server as an endpoint names it: the host, and the port where that is given.
abbrev pub server_text : Bytes → Option ℕ → Bytes
server_text host none = host
server_text host (some port) = host ++ (b':' ∷ decimal port)

-- Without a port it is that of http.
abbrev pub port_or_80 : Option ℕ → ℕ
port_or_80 none = 80
port_or_80 (some port) = port

split_lem :
    (host : Bytes) (port : Option ℕ)
    → Lacks b':' host
    → length host < 256
    → port_or_80 port < 2 ^ 31
    → split_port (server_text host port) 256 control
      ≡ record { host = host; port = pos (port_or_80 port); path = control }
unfolding split_port
split_lem host none lacks short low =
    rw (strchr-none b':' host lacks, split_port, take_all 255 host (omega arith)) refl
split_lem host (some port) lacks short low =
    rw
      (
        strchr_found b':' host (decimal port) lacks,
        split_port,
        before-append host (b':' ∷ decimal port),
        take_all 255 host (omega arith),
      )
      (ap (λ n. record { host = host; port = n; path = control })
        (ap atoi (sym (append-nil (decimal port))) ∙ atoi-decimal port [] low refl))

server-Lacks :
    (host : Bytes) (port : Option ℕ) → Lacks b'/' host → Lacks b'/' (server_text host port)
server-Lacks host none lacks = lacks
server-Lacks host (some port) lacks =
    Lacks-append b'/' host (b':' ∷ decimal port) lacks
      (ground arith, digits-Lacks b'/' (decimal port) (inl (omega arith)) (decimal-AllDigits port))

length-server :
    (host : Bytes) (port : Option ℕ)
    → length host < 256
    → port_or_80 port < 2 ^ 31
    → length (server_text host port) < 300
length-server host none short low = omega arith
length-server host (some port) short low =
    omega (arith, length-append host (b':' ∷ decimal port), length-decimal 9 port (omega arith))

-- The control channel of a multipart client goes to the host of its endpoint, at the port that the
-- endpoint names or else port 80, and at /rdma-ctrl, by http and https alike: when the host has neither a
-- slash nor a colon and fewer than 256 bytes, the port is below 2^31, and the URL fits its buffer.
pub ws_parse_url-ws_url_from_endpoint :
    (secure : Bool) (host : Bytes) (port : Option ℕ) (outlen : ℕ)
    → Lacks b'/' host
    → Lacks b':' host
    → length host < 256
    → port_or_80 port < 2 ^ 31
    → length (server_text host port) + 17 ≤ outlen
    → ws_parse_url
        (ws_url_from_endpoint (endpoint_of secure (server_text host port)) outlen)
        256
        256
      ≡ some (record { host = host; port = pos (port_or_80 port); path = codes "/rdma-ctrl" })
ws_parse_url-ws_url_from_endpoint secure host port outlen lacks no_colon short low room =
    rw
      (
        ws_url_lem secure (server_text host port) outlen,
        take_all (outlen - 1) (url_of secure (server_text host port))
            (url_fits secure (server_text host port) outlen room),
      )
      (parse_lem secure (server_text host port) (server-Lacks host port lacks)
          (length-server host port short low)
        ∙ ap some (split_lem host port no_colon short low))

host_of_lem :
    (server : Bytes) (hostlen : ℕ)
    → Lacks b'/' server
    → host_of server hostlen ≡ printed hostlen server
unfolding host_of
host_of_lem server hostlen lacks = rw (strchr-none b'/' server lacks) (cut_lem hostlen server)

-- The host that is signed and sent is the server of the endpoint, cut to its buffer, when the server
-- holds no slash.
pub host_from_endpoint_lem :
    (secure : Bool) (server : Bytes) (hostlen : ℕ)
    → Lacks b'/' server
    → host_from_endpoint (endpoint_of secure server) hostlen ≡ printed hostlen server
unfolding host_from_endpoint
host_from_endpoint_lem secure server hostlen lacks =
    ap (λ p. host_of p hostlen) (after_scheme_lem secure server) ∙ host_of_lem server hostlen lacks

clipped_lem :
    (hostlen n : ℕ) (p : Bytes)
    → 0 < hostlen
    → length (take (if leb hostlen n then hostlen - 1 else n) p) ≤ hostlen - 1
clipped_lem hostlen n p h = ground (arith, length-take (hostlen - 1) p, length-take n p)

length-host_of : (p : Bytes) (hostlen : ℕ) → 0 < hostlen → length (host_of p hostlen) ≤ hostlen - 1
unfolding host_of
length-host_of p hostlen h =
    clipped_lem hostlen
      (elim (strchr b'/' p) [ none ↦ length p | some slash ↦ length p - length slash ]) p h

pub length-host_from_endpoint :
    (endpoint : Bytes) (hostlen : ℕ)
    → 0 < hostlen
    → length (host_from_endpoint endpoint hostlen) ≤ hostlen - 1
unfolding host_from_endpoint
length-host_from_endpoint endpoint hostlen h = length-host_of (after_scheme endpoint) hostlen h
