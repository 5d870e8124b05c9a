-- ===== src/Multipart/Store/Memory.antt =====
-- What `parse_parts` holds while it reads the parts, and what it returns.
use storefs.Prelude.{
  ℕ, zero, suc, ◌+◌, ◌-◌, ◌*◌, Option, none, some, inl, inr, Option-cases, List, [], ◌∷◌, length,
  take, drop, ◌==◌,
}
use storefs.Prelude.Text.{Bytes, codes, strstr}
use storefs.Os.{
  Resource, block, released, Os, parts_not_parsed, Cmd, emit, pure, taken, or_else, ◌>>=◌, ◌>>◌,
}
use storefs.Os.Live.{Holds, Triple, bind, taken_lem}
use storefs.Os.Rules.{release_lem, ask_lem, pure_lem, fail_lem, when_lem, or_else_lem}
use storefs.Multipart.Xml.{CompletedPart, parse_block}
use storefs.Multipart.Store.{kept, counted, grown, make_room, store_loop, store_parts}

module _ (os : Os) where
  -- The text of the part and the array are there behind it, or nothing is.
  make_room_lem :
      (b c cap count : ℕ) (part : Option CompletedPart) (xs : List Resource)
      → Triple
          (Holds (block c ∷ block b ∷ xs))
          (make_room os b c cap count part)
          (λ _. Holds (block c ∷ block b ∷ xs))
          (Holds xs)
  unfolding make_room grown
  make_room_lem b c cap count none xs = pure_lem cap
  make_room_lem b c cap count (some part) xs =
      when_lem (count == cap)
        (bind (ask_lem (λ t. os.realloc t (cap * 2 * 272))) λ room.
          when_lem room (pure_lem (cap * 2)) (
            bind (release_lem (block c) (block b ∷ xs))
              λ _. bind (release_lem (block b) xs) λ _. fail_lem parts_not_parsed))
        (pure_lem cap)

  -- A round holds the text of the part and gives it back.
  round_lem :
      (b n cap count : ℕ) (part : Option CompletedPart) (xs : List Resource)
      (rest : ℕ → Cmd (List CompletedPart))
      → ((cap : ℕ)
          → Triple (Holds (block b ∷ xs)) (rest cap) (λ _. Holds (block b ∷ xs)) (Holds xs))
      → Triple
          (Holds (block b ∷ xs))
          (do
            c ←
                or_else
                  (λ t. taken block parts_not_parsed (os.malloc t (n + 1)) t)
                  (emit (released (block b)))
            cap ← make_room os b c cap count part
            emit (released (block c))
            parts ← rest cap
            pure (kept part parts))
          (λ _. Holds (block b ∷ xs))
          (Holds xs)
  round_lem b n cap count part xs rest go =
      bind
        (or_else_lem (taken_lem block parts_not_parsed (λ t. os.malloc t (n + 1)) (block b ∷ xs))
          (release_lem (block b) xs))
        λ c. bind (make_room_lem b c cap count part xs) λ cap.
          bind (release_lem (block c) (block b ∷ xs))
            λ _. bind (go cap) λ parts. pure_lem (kept part parts)

  store_loop_lem :
      (fuel b cap count : ℕ) (p : Bytes) (xs : List Resource)
      → Triple
          (Holds (block b ∷ xs))
          (store_loop os fuel b cap count p)
          (λ _. Holds (block b ∷ xs))
          (Holds xs)
  unfolding store_loop
  store_loop_lem zero b cap count p xs = pure_lem []
  store_loop_lem (suc fuel) b cap count p xs = elim (Option-cases (strstr (codes "<Part>") p)) [
    | inl e ↦ rw (store_loop, e) (pure_lem [])
    | inr (q, e) ↦ elim (Option-cases (strstr (codes "</Part>") q)) [
      | inl d ↦ rw (store_loop, e, d) (pure_lem [])
      | inr (end, d) ↦
          rw (store_loop, e, d)
            (round_lem b (length q - length end + 7) cap count
              (parse_block count (take (length q - length end + 7) q)) xs
              (λ cap.
                store_loop os fuel b cap
                  (counted (parse_block count (take (length q - length end + 7) q)) count)
                  (drop 7 end))
              (λ cap.
                store_loop_lem fuel b cap
                  (counted (parse_block count (take (length q - length end + 7) q)) count)
                  (drop 7 end) xs))
    ]
  ]

  -- `parse_parts` leaves the array of the parts and nothing else; where it fails it leaves nothing.
  pub store_parts_lem :
      (xml : Bytes) (xs : List Resource)
      → Triple (Holds xs) (store_parts os xml) (λ l. Holds (block l.store ∷ xs)) (Holds xs)
  unfolding store_parts
  store_parts_lem xml xs =
      bind (taken_lem block parts_not_parsed (λ t. os.malloc t (8 * 272)) xs) λ b.
        bind (store_loop_lem (suc (length xml)) b 8 0 xml xs) λ parts.
          pure_lem {Q = λ l. Holds (block l.store ∷ xs)} (record { store = b; parts = parts })
