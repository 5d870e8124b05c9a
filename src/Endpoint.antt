-- ===== src/Endpoint.antt =====
-- What the clients make of the endpoint of the object store: the URL of the RDMA control channel in
-- s3rdmamultipart.c, s3rdmaput.c and s3rdmaget.c, and the host that s3client.c and
-- s3rdmamultipart.c sign and send (examples/rdma/c).
pub mod Laws
use storefs.Prelude.{ℕ, ◌-◌, Option, none, some, ◌++◌, length, take, drop, leb, if◌then◌else◌}
use storefs.Prelude.Text.{Bytes, codes, starts_with, strstr, strchr, printed}

-- `p ? p + 3 : endpoint`
after_scheme : Bytes → Bytes
after_scheme endpoint = elim (strstr (codes "://") endpoint) [ none ↦ endpoint | some p ↦ drop 3 p ]

-- `ws_url_from_endpoint` of s3rdmamultipart.c: https becomes wss.
unfoldable pub ws_url_from_endpoint : Bytes → ℕ → Bytes
unfolding after_scheme
ws_url_from_endpoint endpoint outlen =
    let secure : Bytes =
      if starts_with (codes "https://") endpoint then codes "wss" else codes "ws" in
    let scheme : Bytes = elim (strstr (codes "://") endpoint) [
      | none ↦ codes "ws"
      | some p ↦ secure
    ] in
    printed outlen (scheme ++ (codes "://" ++ (after_scheme endpoint ++ codes "/rdma-ctrl")))

-- `ws_url_from_endpoint` of s3rdmaput.c and s3rdmaget.c: always ws.
pub plain_url_from_endpoint : Bytes → ℕ → Bytes
unfolding after_scheme
plain_url_from_endpoint endpoint outlen =
    printed outlen (codes "ws://" ++ (after_scheme endpoint ++ codes "/rdma-ctrl"))

-- What stands in front of the first slash, cut to the buffer.
host_of : Bytes → ℕ → Bytes
host_of p hostlen =
    let n : ℕ = elim (strchr b'/' p) [ none ↦ length p | some slash ↦ length p - length slash ] in
    take (if leb hostlen n then hostlen - 1 else n) p

unfoldable pub host_from_endpoint : Bytes → ℕ → Bytes
unfolding after_scheme host_of
host_from_endpoint endpoint hostlen = host_of (after_scheme endpoint) hostlen
