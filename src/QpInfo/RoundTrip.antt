-- ===== src/QpInfo/RoundTrip.antt =====
-- `parse_qpinfo` on the messages that `qpinfo_message` prints.
use storefs.Prelude.{ℕ, ◌%◌, ◌^◌, ◌<◌, ◌≡◌, refl, some, ◌∷◌, ◌++◌, arith, length, All}
use storefs.Prelude.Int.{pos, wrap_small}
use storefs.Prelude.Text.{Bytes, codes, IsByte, strstr}
use storefs.Prelude.Search.{strstr_past}
use storefs.Prelude.Decimal.{decimal}
use storefs.Json.{json_get_u64, json_get_bytes16, array_bytes}
use storefs.Json.Find.{
  decimal-Lacks_quote, array_bytes-Lacks_quote, json_get_u64-found, json_get_bytes16-found,
}
use storefs.QpInfo.{QpInfo, qpinfo_message, parse_qpinfo}

-- A search for a key goes past what `printf` wrote for a number or an array.
past_number :
    (key : Bytes) (n : ℕ) (s : Bytes) → strstr (b'"' ∷ key) (decimal n ++ s) ≡ strstr (b'"' ∷ key) s
past_number key n s = strstr_past b'"' key (decimal n) s (decimal-Lacks_quote n)

past_array : (key xs s : Bytes) → strstr (b'"' ∷ key) (array_bytes xs ++ s) ≡ strstr (b'"' ∷ key) s
past_array key xs s = strstr_past b'"' key (array_bytes xs) s (array_bytes-Lacks_quote xs)

abbrev server : Bytes
server = codes "qpinfo_server"

module _ (qpn lid gid_idx mtu : ℕ) (gid : Bytes) where
  abbrev info : QpInfo
  info = record { qpn = qpn; lid = lid; gid = gid; gid_idx = gid_idx; mtu_enum = pos mtu }

  -- What stands behind each key.
  abbrev behind_mtu : Bytes
  behind_mtu = codes "}}"

  abbrev behind_idx : Bytes
  behind_idx = codes ",\"mtu_enum\":" ++ (decimal mtu ++ behind_mtu)

  abbrev behind_gid : Bytes
  behind_gid = codes "],\"gid_idx\":" ++ (decimal gid_idx ++ behind_idx)

  abbrev behind_lid : Bytes
  behind_lid = codes ",\"gid\":[" ++ (array_bytes gid ++ behind_gid)

  abbrev behind_qpn : Bytes
  behind_qpn = codes ",\"lid\":" ++ (decimal lid ++ behind_lid)

  get_qpn : qpn < 2 ^ 32 → json_get_u64 (qpinfo_message server info) (codes "qpn") ≡ some qpn
  get_qpn h =
      json_get_u64-found _ (codes "qpn") behind_qpn qpn (unfold qpinfo_message strstr in refl)
        (omega arith) refl

  get_lid : lid < 2 ^ 16 → json_get_u64 (qpinfo_message server info) (codes "lid") ≡ some lid
  get_lid h =
      json_get_u64-found _ (codes "lid") behind_lid lid
        (unfold qpinfo_message strstr in rw (past_number (codes "lid\":") qpn behind_qpn))
        (omega arith) refl

  get_gid :
      All IsByte gid
      → length gid ≡ 16
      → json_get_bytes16 (qpinfo_message server info) (codes "gid") ≡ some gid
  get_gid h k =
      json_get_bytes16-found _ (codes "gid") behind_gid gid
        (unfold qpinfo_message strstr in
          rw (
            past_number (codes "gid\":") qpn behind_qpn,
            past_number (codes "gid\":") lid behind_lid,
          ))
        h k refl

  get_idx :
      gid_idx < 2 ^ 8 → json_get_u64 (qpinfo_message server info) (codes "gid_idx") ≡ some gid_idx
  get_idx h =
      json_get_u64-found _ (codes "gid_idx") behind_idx gid_idx
        (unfold qpinfo_message strstr in
          rw (
            past_number (codes "gid_idx\":") qpn behind_qpn,
            past_number (codes "gid_idx\":") lid behind_lid,
            past_array (codes "gid_idx\":") gid behind_gid,
          ))
        (omega arith) refl

  get_mtu : mtu < 2 ^ 31 → json_get_u64 (qpinfo_message server info) (codes "mtu_enum") ≡ some mtu
  get_mtu h =
      json_get_u64-found _ (codes "mtu_enum") behind_mtu mtu
        (unfold qpinfo_message strstr in
          rw (
            past_number (codes "mtu_enum\":") qpn behind_qpn,
            past_number (codes "mtu_enum\":") lid behind_lid,
            past_array (codes "mtu_enum\":") gid behind_gid,
            past_number (codes "mtu_enum\":") gid_idx behind_idx,
          ))
        (omega arith) refl

  -- What the server's message says of its queue pair is what the client reads out of it: for a number
  -- below 2^32, a lid below 2^16, a gid of 16 bytes, an index below 2^8 and an MTU below 2^31.
  pub parse-qpinfo_message :
      qpn < 2 ^ 32
      → lid < 2 ^ 16
      → All IsByte gid
      → length gid ≡ 16
      → gid_idx < 2 ^ 8
      → mtu < 2 ^ 31
      → parse_qpinfo (qpinfo_message server info) ≡ some info
  unfolding parse_qpinfo
  parse-qpinfo_message a b c d e f =
      let q : qpn % 2 ^ 32 ≡ qpn = omega arith in
      let l : lid % 2 ^ 16 ≡ lid = omega arith in
      let g : gid_idx % 2 ^ 8 ≡ gid_idx = omega arith in
      rw (get_qpn a, get_lid b, get_gid c d, get_idx e, get_mtu f, q, l, g, wrap_small mtu f)
