-- ===== src/Headers.antt =====
-- The list of headers that `s3_request` of examples/rdma/c/s3rdmamultipart.c and `make_curl` of
-- examples/rdma/c/s3client.c build by `headers = curl_slist_append(headers, text)`. libcurl is a
-- parameter; `[]` is the null pointer.
pub mod Whole
use storefs.Prelude.{Bool, List, [], ◌∷◌, ◌++◌, if◌then◌else◌}
use storefs.Prelude.Text.{Bytes}
use storefs.Os.{
  slist, acquired, released, failed, Os, Result, ok, Cmd, pure, emit, ask, ◌>>=◌, ◌>>◌,
  when◌then◌else◌,
}

-- `curl_slist_free_all`, which does nothing to a null pointer.
unfoldable pub free_headers : List Bytes → Cmd (Unit {0})
free_headers [] = pure tt
free_headers (h ∷ hs) = emit (released (slist 0))

-- The first header makes the list.
abbrev pub new_list : List Bytes → Cmd (Unit {0})
new_list [] = emit (acquired (slist 0))
new_list (h ∷ hs) = pure tt

module _ (os : Os) where
  -- Where there is no memory, the answer is the null pointer, and it takes the place of the list,
  -- which nothing then gives back.
  unfoldable pub append_header : List Bytes → Bytes → Cmd (List Bytes)
  append_header hs h = do
    there ← ask (λ t. os.slist_append t h)
    when there then (new_list hs >> pure (hs ++ (h ∷ []))) else (emit failed >> pure [])

  -- The calls one after the other, none of which is checked.
  unfoldable pub append_headers : List Bytes → List Bytes → Cmd (List Bytes)
  unfolding append_header
  append_headers hs [] = pure hs
  append_headers hs (h ∷ rest) = do hs ← append_header hs h; append_headers hs rest
