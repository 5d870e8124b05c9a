-- ===== src/Response/Whole.antt =====
-- What the buffer of a response holds when memory may run out.
use storefs.Prelude.{
  ℕ, ◌≡◌, ◌⊎◌, inl, inr, refl, Bool, true, false, List, [], ◌∷◌, ◌++◌, length, concat, ltb, ◌==◌,
  arith, Bool-cases, length-append, append_assoc, append-nil, ap, sym, ◌∙◌,
}
use storefs.Prelude.Text.{Bytes}
use storefs.Response.{ResponseBuf, empty, wanted_cap, store, write_response, collect}

-- A call takes the chunk whole and returns its length, or leaves the buffer and returns another number.
abbrev WholeOrNothing : Bytes → ResponseBuf → ℕ × ResponseBuf → Type 0
WholeOrNothing chunk buf p =
    (((p.0 == length chunk) ≡ true) × (p.1.bytes ≡ buf.bytes ++ chunk))
    ⊎ (((p.0 == length chunk) ≡ false) × (p.1.bytes ≡ buf.bytes))

refused_lem : (chunk : Bytes) (buf : ResponseBuf) → WholeOrNothing chunk buf (0, buf)
refused_lem [] buf = inl (refl, sym (append-nil buf.bytes))
refused_lem (c ∷ chunk) buf = inr (ground arith, refl)

store_lem :
    (realloc : ℕ → Bool) (chunk : Bytes) (buf : ResponseBuf) (need : ℕ)
    → WholeOrNothing chunk buf (store realloc chunk buf need)
unfolding store
store_lem realloc chunk buf need = elim (Bool-cases (ltb buf.cap need)) [
  | inl less ↦ elim (Bool-cases (realloc (wanted_cap buf.cap need))) [
    | inl given ↦ rw (less, given) (inl (ground arith, refl))
    | inr refused ↦ rw (less, refused) (refused_lem chunk buf)
  ]
  | inr more ↦ rw more (inl (ground arith, refl))
]

write_response_lem :
    (realloc : ℕ → Bool) (chunk : Bytes) (buf : ResponseBuf)
    → WholeOrNothing chunk buf (write_response realloc chunk buf)
unfolding write_response
write_response_lem realloc chunk buf = store_lem realloc chunk buf _

prefix_step :
    (realloc : ℕ → Bool) (chunk : Bytes) (chunks : List Bytes) (buf : ResponseBuf)
    (p : ℕ × ResponseBuf)
    → write_response realloc chunk buf ≡ p
    → WholeOrNothing chunk buf p
    → ((rest : Bytes) × ((collect realloc chunks p.1).bytes ++ rest ≡ p.1.bytes ++ concat chunks))
    → (rest : Bytes) × ((collect realloc (chunk ∷ chunks) buf).bytes ++ rest
        ≡ buf.bytes ++ concat (chunk ∷ chunks))
unfolding collect
prefix_step realloc chunk chunks buf (n, buf') e (inl (all, seen)) (rest, held) = (
  rest,
  rw (e, all)
      (held ∙ (ap (λ x. x ++ concat chunks) seen ∙ append_assoc buf.bytes chunk (concat chunks))),
)
prefix_step realloc chunk chunks buf (n, buf') e (inr (refused, same)) more =
    (concat (chunk ∷ chunks), rw (e, refused) (ap (λ x. x ++ concat (chunk ∷ chunks)) same))

-- What is collected is the beginning of what came.
collect_prefix :
    (realloc : ℕ → Bool) (chunks : List Bytes) (buf : ResponseBuf)
    → (rest : Bytes) × ((collect realloc chunks buf).bytes ++ rest ≡ buf.bytes ++ concat chunks)
unfolding collect
collect_prefix realloc [] buf = ([], refl)
collect_prefix realloc (chunk ∷ chunks) buf =
    prefix_step realloc chunk chunks buf _ refl (write_response_lem realloc chunk buf)
      (collect_prefix realloc chunks (write_response realloc chunk buf).1)

nothing_left : (xs ys rest : Bytes) → xs ++ rest ≡ ys → length xs ≡ length ys → xs ≡ ys
nothing_left xs ys [] e h = sym (append-nil xs) ∙ e
nothing_left xs ys (c ∷ rest) e h = absurd (omega (arith, length-append xs (c ∷ rest), ap length e))

-- As many bytes as came are the bytes that came.
pub collect-whole :
    (realloc : ℕ → Bool) (chunks : List Bytes)
    → length (collect realloc chunks empty).bytes ≡ length (concat chunks)
    → (collect realloc chunks empty).bytes ≡ concat chunks
collect-whole realloc chunks h =
    let (rest, e) = collect_prefix realloc chunks empty in
    nothing_left (collect realloc chunks empty).bytes (concat chunks) rest e h
