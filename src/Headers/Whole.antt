-- ===== src/Headers/Whole.antt =====
-- The list of headers where libcurl has memory for each of them.
use storefs.Prelude.{◌≡◌, refl, true, List, [], ◌∷◌, ◌++◌, append_assoc, append-nil, sym}
use storefs.Prelude.Text.{Bytes}
use storefs.Os.{Resource, slist, acquired, Os, Trace, ok, Cmd}
use storefs.Os.Live.{Holds, Triple, good}
use storefs.Os.Rules.{release_lem, pure_lem}
use storefs.Headers.{free_headers, append_header, append_headers}

-- The list of headers, where there is one.
abbrev pub header_list : List Bytes → List Resource
header_list [] = []
header_list (h ∷ hs) = slist 0 ∷ []

pub free_headers_lem :
    (hs : List Bytes) (xs : List Resource)
    → Triple (Holds (header_list hs ++ xs)) (free_headers hs) (λ _. Holds xs) (Holds xs)
unfolding free_headers
free_headers_lem [] xs = pure_lem tt
free_headers_lem (h ∷ hs) xs = release_lem (slist 0) xs

-- The pointer to the list is not null.
abbrev pub IsList : List Bytes → Type 0
IsList hs = header_list hs ≡ slist 0 ∷ []

-- What is known of a value goes on with it.
pub known :
    {A B : Type 0} {P : Trace → Type 0} {Q : B → Trace → Type 0} {E : Trace → Type 0} {a b : A}
    {m : Cmd B}
    → (a ≡ b → Triple P m Q E)
    → Triple (λ t. (a ≡ b) × P t) m Q E
known f = record { run = λ t (e, p). (f e).run t p }

module _ (os : Os) where
  -- `curl_slist_append` does not run out of memory.
  abbrev pub Appends : Type 0
  Appends = (t : Trace) (h : Bytes) → os.slist_append t h ≡ true

  more_headers :
      (h : Bytes) (hs rest : List Bytes) (t : Trace)
      → Appends
      → append_headers os (h ∷ hs) rest t ≡ (ok (h ∷ hs ++ rest), t)
  unfolding append_headers append_header
  more_headers h hs [] t appends = rw (append-nil hs) refl
  more_headers h hs (x ∷ rest) t appends =
      rw
        (
          appends t x,
          more_headers h (hs ++ (x ∷ [])) rest t appends,
          sym (append_assoc hs (x ∷ []) rest),
        )
        refl

  -- All headers are in one list.
  pub append_headers-Appends :
      (h : Bytes) (hs : List Bytes) (t : Trace)
      → Appends
      → append_headers os [] (h ∷ hs) t ≡ (ok (h ∷ hs), acquired (slist 0) ∷ t)
  unfolding append_headers append_header
  append_headers-Appends h hs t appends =
      rw (appends t h, more_headers h [] hs (acquired (slist 0) ∷ t) appends) refl

  -- A program that takes the headers, none of which is missing.
  pub headers_lem :
      {P P' : Trace → Type 0} {E : Trace → Type 0} (all : List Bytes)
      → IsList all
      → Appends
      → ((t : Trace) → P t → P' (acquired (slist 0) ∷ t))
      → Triple P (append_headers os [] all) (λ hs t. (hs ≡ all) × P' t) E
  headers_lem [] there appends step = absurd cc
  headers_lem (h ∷ hs) there appends step = record {
    run = λ t p. rw (append_headers-Appends h hs t appends) (good (refl, step t p));
  }

  -- A list that is there already and grows.
  pub more_headers_lem :
      {P : Trace → Type 0} {E : Trace → Type 0} (hs rest : List Bytes)
      → IsList hs
      → Appends
      → Triple P (append_headers os hs rest) (λ r t. (r ≡ hs ++ rest) × P t) E
  more_headers_lem [] rest there appends = absurd cc
  more_headers_lem (h ∷ hs) rest there appends = record {
    run = λ t p. rw (more_headers h hs rest t appends) (good (refl, p));
  }
