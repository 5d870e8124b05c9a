-- ===== src/Url.antt =====
-- Websocket URLs: `ws_parse_url` of examples/rdma/c/rdmalib.c and the request that `ws_dial` writes.
use storefs.Prelude.{ℕ, Option, none, some, [], ◌∷◌, ◌++◌, length, drop, leb, if◌then◌else◌}
use storefs.Prelude.Int.{ℤ, pos}
use storefs.Prelude.Text.{Bytes, codes, strstr, strchr, before, printed}
use storefs.Prelude.Decimal.{atoi, signed_decimal}

pub record Url : Type 0 where
  pub host : Bytes
  pub port : ℤ
  pub path : Bytes

-- `*colon = 0` cuts the host, and `atoi` reads the port; without a colon the port is 80.
unfoldable pub split_port : Bytes → ℕ → Bytes → Url
split_port hostport hostlen path = elim (strchr b':' hostport) [
  | none ↦ record { host = printed hostlen hostport; port = pos 80; path = path }
  | some colon ↦ record {
    host = printed hostlen (before hostport colon);
    port = atoi (drop 1 colon);
    path = path;
  }
]

-- "ws://host[:port]/path"; `none` is -1.
unfoldable pub ws_parse_url : Bytes → ℕ → ℕ → Option Url
unfolding split_port
ws_parse_url url hostlen pathlen = elim (strstr (codes "://") url) [
  | none ↦ none
  | some at ↦
      let p = drop 3 at in
      let slash = strchr b'/' p in
      let hostport : Bytes = elim slash [ none ↦ p | some q ↦ before p q ] in
      let path : Bytes = elim slash [ none ↦ b'/' ∷ [] | some q ↦ q ] in
      if leb 300 (length hostport)
      then none
      else some (split_port hostport hostlen (printed pathlen path))
]

-- The text of the handshake, before it is cut to the 512 bytes of `req`.
unfoldable pub upgrade_request : Url → Bytes → Bytes
upgrade_request url key =
    codes "GET "
    ++ (url.path
        ++ (codes " HTTP/1.1\r\nHost: "
            ++ (url.host
                ++ (b':'
                    ∷ (signed_decimal url.port
                        ++ (codes
                              "\r\nUpgrade: websocket\r\nConnection: Upgrade\r\nSec-WebSocket-Key: "
                            ++ (key ++ codes "\r\nSec-WebSocket-Version: 13\r\n\r\n")))))))
