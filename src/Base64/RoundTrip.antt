-- ===== src/Base64/RoundTrip.antt =====
-- The encoding against the decoder of RFC 4648, and its length.
use Prim.Native.Nat.{bit_or}
use storefs.Prelude.{
  ℕ, ◌+◌, ◌-◌, ◌*◌, ◌/◌, ◌%◌, ◌^◌, ◌<◌, ◌≡◌, refl, ◌∙◌, [], ◌∷◌, Bool, true, false, not, Option,
  none, some, arith, length, get_or, All, leb, ◌==◌, ◌&&◌, if◌then◌else◌,
}
use storefs.Prelude.Bits.{or_shifted, and_mask, passes, passes_each}
use storefs.Prelude.Text.{Bytes, IsByte}
use storefs.Base64.{tbl, letter, base64_encode}

-- The value of a letter of the alphabet, by the ranges of RFC 4648; 64 for any other byte.
pub sextet : ℕ → ℕ
sextet c =
    if leb b'A' c && leb c b'Z'
    then c - b'A'
    else if leb b'a' c && leb c b'z'
    then c - b'a' + 26
    else if leb b'0' c && leb c b'9'
    then c - b'0' + 52
    else if c == b'+'
    then 62
    else if c == b'/'
    then 63
    else 64

-- Four letters give three bytes; padding cuts the last group to one or two.
abbrev quad : ℕ → ℕ → ℕ → ℕ → ℕ
quad p q r s = p * 2 ^ 18 + q * 2 ^ 12 + r * 2 ^ 6 + s

abbrev pub behind : ℕ → ℕ → ℕ → Option Bytes → Option Bytes
behind a b c none = none
behind a b c (some out) = some (a ∷ b ∷ c ∷ out)

pub decode : Bytes → Option Bytes
unfolding sextet
decode [] = some []
decode (p ∷ q ∷ r ∷ s ∷ rest) =
    if s == b'='
    then (if r == b'='
        then some (quad (sextet p) (sextet q) 0 0 / 2 ^ 16 ∷ [])
        else let v = quad (sextet p) (sextet q) (sextet r) 0 in
          some (v / 2 ^ 16 ∷ v / 2 ^ 8 % 2 ^ 8 ∷ []))
    else let v = quad (sextet p) (sextet q) (sextet r) (sextet s) in
      behind (v / 2 ^ 16) (v / 2 ^ 8 % 2 ^ 8) (v % 2 ^ 8) (decode rest)
decode _ = none

-- The alphabet and the ranges agree, and no letter is the padding.
abbrev agrees : ℕ → Bool
agrees x = (sextet (get_or tbl x 0) == x) && not (get_or tbl x 0 == b'=')

alphabet : passes agrees 64 ≡ true
unfolding passes sextet
alphabet = refl

agrees-parts :
    (x : ℕ) → agrees x ≡ true → (sextet (get_or tbl x 0) ≡ x) × ((get_or tbl x 0 == b'=') ≡ false)
agrees-parts x h = ground arith

sextet-letter :
    (v shift : ℕ)
    → (sextet (letter v shift) ≡ v / 2 ^ shift % 64) × ((letter v shift == b'=') ≡ false)
unfolding letter
sextet-letter v shift = rw (and_mask 6 (v / 2 ^ shift)) (
    agrees-parts (v / 2 ^ shift % 64)
      (passes_each agrees 64 (v / 2 ^ shift % 64) (omega arith) alphabet))

joined :
    (a b c : ℕ)
    → IsByte b
    → IsByte c
    → bit_or (bit_or (a * 2 ^ 16) (b * 2 ^ 8)) c ≡ a * 2 ^ 16 + b * 2 ^ 8 + c
joined a b c hb hc =
    let pair : bit_or (a * 2 ^ 16) (b * 2 ^ 8) ≡ (a * 256 + b) * 2 ^ 8 =
      or_shifted 16 a (b * 2 ^ 8) (omega arith) ∙ omega arith in
    rw pair (or_shifted 8 (a * 256 + b) c hc ∙ omega arith)

quad-letters :
    (v : ℕ)
    → v < 2 ^ 24
    → quad (sextet (letter v 18)) (sextet (letter v 12)) (sextet (letter v 6)) (sextet (letter v 0))
      ≡ v
quad-letters v h =
    rw
      ((sextet-letter v 18).0, (sextet-letter v 12).0, (sextet-letter v 6).0, (sextet-letter v 0).0)
      (omega arith)

-- With the last letter missing, the lowest six bits are.
quad-letters_three :
    (v : ℕ)
    → v < 2 ^ 24
    → quad (sextet (letter v 18)) (sextet (letter v 12)) (sextet (letter v 6)) 0 ≡ v / 64 * 64
quad-letters_three v h =
    rw ((sextet-letter v 18).0, (sextet-letter v 12).0, (sextet-letter v 6).0) (omega arith)

-- An independent decoder of the standard alphabet gives back what `base64_encode` was given, for any
-- list of bytes.
pub decode-base64_encode : (s : Bytes) → All IsByte s → decode (base64_encode s) ≡ some s
unfolding decode base64_encode
decode-base64_encode [] h = refl
decode-base64_encode (a ∷ []) (ha, h) =
    ground (arith, sextet-letter (a * 2 ^ 16) 18, sextet-letter (a * 2 ^ 16) 12)
decode-base64_encode (a ∷ b ∷ []) (ha, (hb, h)) =
    let e : bit_or (a * 2 ^ 16) (b * 2 ^ 8) ≡ a * 2 ^ 16 + b * 2 ^ 8 =
      or_shifted 16 a (b * 2 ^ 8) (omega arith) in
    let v : ℕ = a * 2 ^ 16 + b * 2 ^ 8 in
    rw (e, (sextet-letter v 6).1, quad-letters_three v (omega arith)) (ground arith)
decode-base64_encode (a ∷ b ∷ c ∷ rest) (ha, (hb, (hc, h))) =
    let v : ℕ = a * 2 ^ 16 + b * 2 ^ 8 + c in
    rw
      (
        joined a b c hb hc,
        (sextet-letter v 0).1,
        quad-letters v (omega arith),
        decode-base64_encode rest h,
      )
      (ground arith)

-- The text has four letters for each three bytes of the input, rounded up.
pub length-base64_encode : (s : Bytes) → length (base64_encode s) ≡ 4 * ((length s + 2) / 3)
unfolding base64_encode
length-base64_encode [] = refl
length-base64_encode (a ∷ []) = refl
length-base64_encode (a ∷ b ∷ []) = refl
length-base64_encode (a ∷ b ∷ c ∷ rest) = omega (arith, length-base64_encode rest)
