-- ===== src/QpInfo.antt =====
-- `qpinfo_t` of examples/rdma/c/rdmalib.c and its messages: what `send_qpinfo_client` prints and what
-- `recv_qpinfo_server` reads.
pub mod RoundTrip
use storefs.Prelude.{ℕ, ◌%◌, ◌^◌, Bool, Option, none, some, [], ◌∷◌, ◌++◌}
use storefs.Prelude.Int.{ℤ, wrap}
use storefs.Prelude.Options.{◌>>=◌}
use storefs.Prelude.Text.{Bytes, codes}
use storefs.Prelude.Decimal.{decimal, signed_decimal}
use storefs.Json.{json_get_u64, json_get_bytes16, array_bytes}

pub record QpInfo : Type 0 where
  pub qpn : ℕ
  pub lid : ℕ
  pub gid : Bytes
  pub gid_idx : ℕ
  pub mtu_enum : ℤ

-- The message; its type is "qpinfo_client" where the client sends it.
unfoldable pub qpinfo_message : Bytes → QpInfo → Bytes
qpinfo_message label q =
    codes "{\"type\":\""
    ++ (label
        ++ (codes "\",\"data\":{\"qpn\":"
            ++ (decimal q.qpn
                ++ (codes ",\"lid\":"
                    ++ (decimal q.lid
                        ++ (codes ",\"gid\":["
                            ++ (array_bytes q.gid
                                ++ (codes "],\"gid_idx\":"
                                    ++ (decimal q.gid_idx
                                        ++ (codes ",\"mtu_enum\":"
                                            ++ (signed_decimal q.mtu_enum ++ codes "}}")))))))))))

-- The fields of a message, each cut to its C type; `none` is -1.
unfoldable pub parse_qpinfo : Bytes → Option QpInfo
parse_qpinfo buf = do
  qpn ← json_get_u64 buf (codes "qpn")
  lid ← json_get_u64 buf (codes "lid")
  gid ← json_get_bytes16 buf (codes "gid")
  gid_idx ← json_get_u64 buf (codes "gid_idx")
  mtu_enum ← json_get_u64 buf (codes "mtu_enum")
  some (record {
    qpn = qpn % 2 ^ 32;
    lid = lid % 2 ^ 16;
    gid = gid;
    gid_idx = gid_idx % 2 ^ 8;
    mtu_enum = wrap 32 mtu_enum;
  })
