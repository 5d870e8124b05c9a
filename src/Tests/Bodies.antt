-- ===== src/Tests/Bodies.antt =====
-- The body of a response at concrete chunks, and a listing of parts.
use storefs.Prelude.{concat, ◌≡◌, true, false, refl, inr, some, List, [], ◌∷◌, arith}
use storefs.Prelude.Text.{Bytes, codes}
use storefs.Prelude.Int.{pos}
use storefs.Multipart.Store.{Listed}
use storefs.Response.{empty, write_response, collect}
use storefs.Response.Growth.{Fits, Stored, write_response-Stored, collect-concat}

abbrev chunks : List Bytes
chunks = codes "<ListPartsResult>" ∷ codes "</ListPartsResult>" ∷ []

write_response-Stored_example :
    Stored (λ _. false) (codes "<Part>") empty (write_response (λ _. false) (codes "<Part>") empty)
write_response-Stored_example =
    write_response-Stored (λ _. false) (codes "<Part>") empty (inr (refl, refl)) (omega arith)

collect-concat_example :
    Fits (collect (λ _. true) chunks empty)
    × ((collect (λ _. true) chunks empty).bytes ≡ concat chunks)
collect-concat_example = collect-concat chunks (omega arith)

-- A listing of one part, and what is left where memory is given for it.
abbrev listing : Bytes
listing = codes "<Part><PartNumber>2</PartNumber><ETag>e2</ETag></Part>"

abbrev listed : Listed
listed = record {
  store = 9;
  parts = record { part_number = pos 2; etag = codes "e2"; size = some (pos 0) } ∷ [];
}
