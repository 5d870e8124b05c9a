-- ===== src/Multipart/Store.antt =====
-- `parse_parts` of examples/rdma/c/s3rdmamultipart.c with the memory that it takes: the array of the
-- parts, which grows, and in each round a block for the text of one part.
pub mod Memory
pub mod Parse
use storefs.Prelude.{
  ℕ, zero, suc, ◌+◌, ◌-◌, ◌*◌, Bool, Option, none, some, List, [], ◌∷◌, length, take, drop, ◌==◌,
  if◌then◌else◌,
}
use storefs.Prelude.Text.{Bytes, codes, strstr}
use storefs.Os.{
  block, released, Os, Error, parts_not_parsed, Result, ok, err, Cmd, pure, fail, emit, taken,
  or_else, ask, ◌>>=◌, ◌>>◌, when◌then◌else◌,
}
use storefs.Multipart.Xml.{CompletedPart, parse_block}

-- The array of the parts that an operation returns, and the block that holds it.
pub record Listed : Type 0 where
  pub store : ℕ
  pub parts : List CompletedPart

-- The parts with the one that a round found, and their number.
abbrev pub kept : Option CompletedPart → List CompletedPart → List CompletedPart
kept none parts = parts
kept (some part) parts = part ∷ parts

abbrev pub counted : Option CompletedPart → ℕ → ℕ
counted none count = count
counted (some part) count = count + 1

module _ (os : Os) where
  -- `if (count == cap)`: the array at `b` grows to twice its size, and `cap` with it. Where there is no
  -- room for that, the text of the part at `c` and the array are given back.
  unfoldable pub grown : (b c cap count : ℕ) → Cmd ℕ
  grown b c cap count =
      when count == cap
      then (do
        room ← ask (λ t. os.realloc t (cap * 2 * 272))
        when room
            then pure (cap * 2)
            else (emit (released (block c)) >> emit (released (block b)) >> fail parts_not_parsed))
      else pure cap

  -- Only a text that has a number and an ETag takes room.
  unfoldable pub make_room : (b c cap count : ℕ) → Option CompletedPart → Cmd ℕ
  unfolding grown
  make_room b c cap count none = pure cap
  make_room b c cap count (some part) = grown b c cap count

  -- The loop over the texts of the parts, with the array at `b`.
  unfoldable pub store_loop : ℕ → (b cap count : ℕ) → Bytes → Cmd (List CompletedPart)
  unfolding make_room
  store_loop zero b cap count p = pure []
  store_loop (suc fuel) b cap count p = elim (strstr (codes "<Part>") p) [
    | none ↦ pure []
    | some p ↦ elim (strstr (codes "</Part>") p) [
      | none ↦ pure []
      | some end ↦ (do
        let block_len = length p - length end + 7
        let part = parse_block count (take block_len p)
        c ←
            or_else (λ t. taken block parts_not_parsed (os.malloc t (block_len + 1)) t)
              (emit (released (block b)))
        cap ← make_room b c cap count part
        emit (released (block c))
        parts ← store_loop fuel b cap (counted part count) (drop 7 end)
        pure (kept part parts))
    ]
  ]

  -- A round takes at least one byte, so one more round than there are bytes is enough.
  unfoldable pub store_parts : Bytes → Cmd Listed
  unfolding store_loop
  store_parts xml = do
    b ← λ t. taken block parts_not_parsed (os.malloc t (8 * 272)) t
    parts ← store_loop (suc (length xml)) b 8 0 xml
    pure (record { store = b; parts = parts })
