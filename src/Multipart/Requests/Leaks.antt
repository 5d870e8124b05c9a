-- ===== src/Multipart/Requests/Leaks.antt =====
-- What the S3 operations hold when they end.
use storefs.Prelude.{
  ℕ, ◌+◌, ◌*◌, Bool, true, false, Option, none, some, List, [], ◌∷◌, ◌++◌, arith, length,
  if◌then◌else◌, ◌==◌,
}
use storefs.Prelude.Int.{ℤ}
use storefs.Prelude.Text.{Bytes, codes, printed}
use storefs.Prelude.Decimal.{signed_decimal}
use storefs.Os.{
  Resource, block, released, emit, Os, Error, missing_upload_id, out_of_memory, out_of_bounds,
  Result, ok, Trace, pure, fail, when◌then◌else◌,
}
use storefs.Os.Live.{live, sound, same, kind, ident, Holds, Triple, good, bind, taken_lem}
use storefs.Os.Rules.{Kept, release_lem, outcome_lem, fail_lem, finally_lem}
use storefs.Sign.{Config}
use storefs.Headers.Whole.{Appends}
use storefs.Http.{Answer, body_text, body_block, free_body}
use storefs.Http.Leaks.{body_blocks, free_body_lem, s3_request_lem}
use storefs.Multipart.Xml.{CompletedPart, parse_upload_id, complete_body}
use storefs.Multipart.Store.{store_parts}
use storefs.Multipart.Store.Memory.{store_parts_lem}
use storefs.Multipart.Requests.{
  answered, found, upload_query, list_query, exchange, s3_create_multipart, s3_upload_part_empty,
  s3_list_parts, s3_complete_multipart, s3_abort_multipart, s3_list_uploads,
}

-- The two blocks go in whatever order.
behind :
    {Q : Trace → Type 0} (b : ℕ) (cap : Bool) (xs : List Resource)
    → Triple
        (Holds (block b ∷ ((if cap then [] else block body_block ∷ []) ++ xs)))
        (when cap then pure tt else emit (released (block body_block)))
        (λ _. Holds (block b ∷ xs))
        Q
unfolding live sound same kind ident
behind b true xs = record { run = λ t h. good h }
behind b false xs = record { run = λ t h. good (ground arith) }

module _ (os : Os) (cfg : Config) (bucket : Bytes) (object : Option Bytes)
    (appends : Appends os) where
  exchange_lem :
      {A : Type 0} (method query : Bytes) (body : Option Bytes) (extra : Option (Bytes × Bytes))
      (f : Bytes → Result A) (xs : List Resource)
      → Kept xs (exchange os cfg bucket object method query body extra f)
  unfolding exchange
  exchange_lem method query body extra f xs =
      bind (s3_request_lem os cfg method bucket object (some query) body extra xs appends)
        λ a. bind (free_body_lem a.body xs) λ _. outcome_lem (answered a f)

  pub s3_create_multipart_lem :
      (n : ℕ) (xs : List Resource) → Kept xs (s3_create_multipart os cfg bucket object n)
  unfolding s3_create_multipart
  s3_create_multipart_lem n xs =
      exchange_lem _ _ none none (λ xml. found missing_upload_id (parse_upload_id xml n)) xs

  pub s3_upload_part_empty_lem :
      (upload_id : Bytes) (k : ℤ) (id : Bytes) (n : ℕ) (xs : List Resource)
      → Kept xs (s3_upload_part_empty os cfg bucket object upload_id k id n)
  unfolding s3_upload_part_empty
  s3_upload_part_empty_lem upload_id k id n xs =
      exchange_lem _ _ none _
        (λ xml. ok (printed n (codes "\"part-" ++ (signed_decimal k ++ codes "\"")))) xs

  pub s3_abort_multipart_lem :
      (upload_id : Bytes) (xs : List Resource)
      → Kept xs (s3_abort_multipart os cfg bucket object upload_id)
  unfolding s3_abort_multipart
  s3_abort_multipart_lem upload_id xs = exchange_lem _ _ none none (λ xml. ok tt) xs

  pub s3_complete_multipart_lem :
      (upload_id : Bytes) (parts : List CompletedPart) (xs : List Resource)
      → Kept xs (s3_complete_multipart os cfg bucket object upload_id parts)
  unfolding s3_complete_multipart
  s3_complete_multipart_lem upload_id parts xs =
      bind (taken_lem block out_of_memory (λ t. os.malloc t (256 + length parts * 384)) xs) λ b.
        finally_lem
          (exchange_lem (codes "POST") (upload_query upload_id) (some (complete_body parts)) none
            (λ xml. ok tt) (block b ∷ xs))
          (λ _. release_lem (block b) xs) (release_lem (block b) xs)

  pub s3_list_uploads_lem :
      (delimiter key_marker : Option Bytes) (n : ℤ) (prefix upload_id_marker : Option Bytes)
      (xs : List Resource)
      → Kept xs
          (s3_list_uploads os cfg bucket object delimiter key_marker n prefix upload_id_marker)
  unfolding s3_list_uploads
  s3_list_uploads_lem delimiter key_marker n prefix upload_id_marker xs =
      elim (list_query delimiter key_marker n prefix upload_id_marker)
        as (λ q. Kept xs (elim q [
          | none ↦ fail out_of_bounds
          | some query ↦
              exchange os cfg bucket object (codes "GET") query none none (λ text. ok text)
        ])) [
          | none ↦ fail_lem out_of_bounds
          | some query ↦ exchange_lem _ query none none (λ text. ok text) xs
        ]

  stored :
      (a : Answer) (f : Option Error) (ys : List Resource)
      → Triple
          (Holds ys)
          (elim f [ some e ↦ fail e | none ↦ store_parts os (body_text a.body) ])
          (λ l. Holds (block l.store ∷ ys))
          (Holds ys)
  stored a (some e) ys = fail_lem e
  stored a none ys = store_parts_lem os (body_text a.body) ys

  pub s3_list_parts_lem :
      (upload_id : Bytes) (xs : List Resource)
      → Triple
          (Holds xs)
          (s3_list_parts os cfg bucket object upload_id)
          (λ l. Holds (block l.store ∷ xs))
          (Holds xs)
  unfolding s3_list_parts free_body
  s3_list_parts_lem upload_id xs =
      bind
        (s3_request_lem os cfg (codes "GET") bucket object (some (upload_query upload_id)) none none
          xs appends)
        λ a.
          finally_lem (stored a a.failure (body_blocks a.body ++ xs))
            (λ l. behind l.store (a.body.cap == 0) xs) (free_body_lem a.body xs)
