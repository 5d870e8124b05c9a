-- ===== src/Response/Growth.antt =====
-- The capacity and the content of the buffer of a response.
use native.Mathlib.Nat.{pow-suc, mul_assoc}
use mathlib.Core.Bool.{true≢false}
use storefs.Prelude.{
  concat, ltb→lt, ℕ, zero, suc, ◌+◌, ◌*◌, ◌^◌, ◌%◌, ◌≤◌, ◌<◌, ◌≡◌, ◌⊎◌, inl, inr, refl, Bool, true,
  false, List, [], ◌∷◌, ◌++◌, length, ltb, ◌==◌, if◌then◌else◌, arith, Bool-cases, length-append,
  append_assoc, append-nil, ap, sym, ◌∙◌,
}
use storefs.Prelude.Text.{Bytes}
use storefs.Response.{ResponseBuf, empty, grow, wanted_cap, store, write_response, collect}

-- There is room for the bytes and a NUL, or the buffer is not there yet.
abbrev pub Fits : ResponseBuf → Type 0
Fits buf = (length buf.bytes < buf.cap) ⊎ ((buf.bytes ≡ []) × (buf.cap ≡ 0))

-- Enough doublings reach the need, and none wraps.
grow_lem :
    (rounds need c : ℕ) → 0 < c → need ≤ 2 ^ 63 → need ≤ c * 2 ^ rounds → need ≤ grow rounds need c
unfolding grow
grow_lem zero need c h k l = grind arith
grow_lem (suc rounds) need c h k l = elim (Bool-cases (ltb c need)) [
  | inl less ↦
      let small : c < need = ltb→lt c need less in
      let kept : c * 2 % 2 ^ 64 ≡ c * 2 = omega arith in
      let double : 2 * 2 ^ rounds ≡ 2 ^ suc rounds = omega (arith, pow-suc 2 rounds) in
      let reach : need ≤ c * 2 * 2 ^ rounds = rw (mul_assoc c 2 (2 ^ rounds), double) l in
      rw (less, kept) (grow_lem rounds need (c * 2) (omega arith) k reach)
  | inr more ↦ rw more (ground arith)
]

wanted_cap_lem : (cap need : ℕ) → cap < need → need ≤ 2 ^ 63 → need ≤ wanted_cap cap need
unfolding wanted_cap
wanted_cap_lem cap need h k =
    grow_lem 64 need (if cap == 0 then 4096 else cap * 2 % 2 ^ 64) (ground arith) k (ground arith)

-- What a call makes of the buffer: the chunk is stored and acknowledged, or `realloc` refused.
abbrev pub Stored : (realloc : ℕ → Bool) → Bytes → ResponseBuf → ℕ × ResponseBuf → Type 0
Stored realloc chunk buf p =
    Fits p.1
    × (((p.0 ≡ length chunk) × (p.1.bytes ≡ buf.bytes ++ chunk))
        ⊎ ((p.0 ≡ 0) × (p.1 ≡ buf) × ((cap : ℕ) × (realloc cap ≡ false))))

store_lem :
    (realloc : ℕ → Bool) (chunk : Bytes) (buf : ResponseBuf) (need : ℕ)
    → Fits buf
    → need ≡ length buf.bytes + length chunk + 1
    → need ≤ 2 ^ 63
    → Stored realloc chunk buf (store realloc chunk buf need)
unfolding store
store_lem realloc chunk buf need fits e small = elim (Bool-cases (ltb buf.cap need)) [
  | inl less ↦ elim (Bool-cases (realloc (wanted_cap buf.cap need))) [
    | inl given ↦
        let room : need ≤ wanted_cap buf.cap need =
          wanted_cap_lem buf.cap need (ltb→lt buf.cap need less) small in
        rw (less, given) (inl (omega (arith, length-append buf.bytes chunk)), inl (refl, refl))
    | inr refused ↦ rw (less, refused) (fits, inr (refl, refl, (wanted_cap buf.cap need, refused)))
  ]
  | inr more ↦
      let room : need ≤ buf.cap = ground arith in
      rw more (inl (omega (arith, length-append buf.bytes chunk)), inl (refl, refl))
]

-- Where the text, the chunk and the NUL have at most 2^63 bytes, a call leaves the buffer with room for
-- what it holds and a NUL. Either the chunk is behind what was there and its length is returned, or
-- `realloc` refused, the buffer is as it was and 0 is returned.
pub write_response-Stored :
    (realloc : ℕ → Bool) (chunk : Bytes) (buf : ResponseBuf)
    → Fits buf
    → length buf.bytes + length chunk + 1 ≤ 2 ^ 63
    → Stored realloc chunk buf (write_response realloc chunk buf)
unfolding write_response
write_response-Stored realloc chunk buf fits small =
    let kept : (length buf.bytes + length chunk + 1) % 2 ^ 64
        ≡ length buf.bytes + length chunk + 1 =
      omega arith in
    rw kept (store_lem realloc chunk buf (length buf.bytes + length chunk + 1) fits refl small)

step_lem :
    (n : ℕ) (buf' : ResponseBuf) (chunk : Bytes) (chunks : List Bytes) (buf : ResponseBuf)
    → write_response (λ _. true) chunk buf ≡ (n, buf')
    → Stored (λ _. true) chunk buf (n, buf')
    → (Fits buf'
        → length buf'.bytes + length (concat chunks) + 1 ≤ 2 ^ 63
        → Fits (collect (λ _. true) chunks buf')
          × ((collect (λ _. true) chunks buf').bytes ≡ buf'.bytes ++ concat chunks))
    → length buf.bytes + length (concat (chunk ∷ chunks)) + 1 ≤ 2 ^ 63
    → Fits (collect (λ _. true) (chunk ∷ chunks) buf)
      × ((collect (λ _. true) (chunk ∷ chunks) buf).bytes ≡ buf.bytes ++ concat (chunk ∷ chunks))
unfolding collect
step_lem n buf' chunk chunks buf e (fits, inr (_, _, (_, refused))) more small =
    absurd (true≢false refused)
step_lem n buf' chunk chunks buf e (fits, inl (all, seen)) more small =
    let same : (n == length chunk) ≡ true = ground arith in
    let left : length buf'.bytes + length (concat chunks) + 1 ≤ 2 ^ 63 =
      rw seen (omega (arith, length-append buf.bytes chunk, length-append chunk (concat chunks))) in
    let (room, held) = more fits left in
    rw (e, same)
      (
        room,
        held ∙ (ap (λ x. x ++ concat chunks) seen ∙ append_assoc buf.bytes chunk (concat chunks)),
      )

collected :
    (chunks : List Bytes) (buf : ResponseBuf)
    → Fits buf
    → length buf.bytes + length (concat chunks) + 1 ≤ 2 ^ 63
    → Fits (collect (λ _. true) chunks buf)
      × ((collect (λ _. true) chunks buf).bytes ≡ buf.bytes ++ concat chunks)
unfolding collect
collected [] buf fits small = (fits, sym (append-nil buf.bytes))
collected (chunk ∷ chunks) buf fits small =
    step_lem (write_response (λ _. true) chunk buf).0 (write_response (λ _. true) chunk buf).1 chunk
      chunks buf refl
      (write_response-Stored (λ _. true) chunk buf fits
        (omega (arith, length-append chunk (concat chunks))))
      (collected chunks (write_response (λ _. true) chunk buf).1) small

-- If memory does not run out, the buffer that starts empty holds, behind the last chunk of a response,
-- exactly the chunks in their order, with room for a NUL; the response has fewer than 2^63 bytes.
pub collect-concat :
    (chunks : List Bytes)
    → length (concat chunks) < 2 ^ 63
    → Fits (collect (λ _. true) chunks empty)
      × ((collect (λ _. true) chunks empty).bytes ≡ concat chunks)
collect-concat chunks small = collected chunks empty (inr (refl, refl)) (omega arith)
