-- ===== src/Multipart/Options/RoundTrip.antt =====
-- Options that are written as arguments and read again.
use storefs.Prelude.{
  ℕ, ◌≡◌, ◌<◌, ◌^◌, ◌∙◌, refl, ap, sym, Option, none, some, List, [], ◌∷◌, append-nil,
}
use storefs.Prelude.Int.{ℤ, pos}
use storefs.Prelude.Text.{Bytes, codes, same_text}
use storefs.Prelude.Decimal.{decimal, atoi, atoll, signed_decimal, atoi-decimal, atoll-decimal}
use storefs.Multipart.Options.{
  Options, init_options, set_option, parse_loop, check_options, parse_args,
}

-- An option that may be missing.
abbrev pub optional : Bytes → Option Bytes → List Bytes → List Bytes
optional flag none rest = rest
optional flag (some value) rest = flag ∷ value ∷ rest

-- A command line that says what `o` holds.
abbrev pub arguments : Options → List Bytes
arguments o =
    codes "-action"
    ∷ o.action
    ∷ codes "-endpoint"
    ∷ o.endpoint
    ∷ codes "-rdma-dev"
    ∷ o.rdma_dev
    ∷ codes "-ak"
    ∷ o.ak
    ∷ codes "-sk"
    ∷ o.sk
    ∷ codes "-part"
    ∷ signed_decimal o.part
    ∷ codes "-partsize"
    ∷ signed_decimal o.part_size
    ∷ codes "-max-uploads"
    ∷ signed_decimal o.max_uploads
    ∷ optional (codes "-bucket") o.bucket (
        optional (codes "-object") o.object (
          optional (codes "-file") o.file_path (
            optional (codes "-uploadid") o.upload_id (
              optional (codes "-prefix") o.prefix (
                optional (codes "-delimiter") o.delimiter (
                  optional (codes "-key-marker") o.key_marker
                    (optional (codes "-upload-id-marker") o.upload_id_marker [])))))))

-- The option sets its field, which was empty.
optional_lem :
    (flag : Bytes) (value : Option Bytes) (rest : List Bytes) (f : Option Bytes → Options)
    → ((v : Bytes) → parse_loop (flag ∷ v ∷ rest) (f none) ≡ parse_loop rest (f (some v)))
    → parse_loop (optional flag value rest) (f none) ≡ parse_loop rest (f value)
optional_lem flag none rest f step = refl
optional_lem flag (some v) rest f step = step v

-- Only the texts and numbers are read, and all else is as at the start.
abbrev read_first : Options → Options
read_first o = record init_options {
  action = o.action;
  endpoint = o.endpoint;
  rdma_dev = o.rdma_dev;
  ak = o.ak;
  sk = o.sk;
  part = atoi (signed_decimal o.part);
  part_size = atoll (signed_decimal o.part_size);
  max_uploads = atoll (signed_decimal o.max_uploads);
}

loop_lem :
    (o : Options)
    → parse_loop (arguments o) init_options
      ≡ some (record o {
        part = atoi (signed_decimal o.part);
        part_size = atoll (signed_decimal o.part_size);
        max_uploads = atoll (signed_decimal o.max_uploads);
      })
unfolding parse_loop set_option same_text
loop_lem o =
    optional_lem (codes "-bucket") o.bucket
      (optional (codes "-object") o.object (
        optional (codes "-file") o.file_path (
          optional (codes "-uploadid") o.upload_id (
            optional (codes "-prefix") o.prefix (
              optional (codes "-delimiter") o.delimiter (
                optional (codes "-key-marker") o.key_marker
                  (optional (codes "-upload-id-marker") o.upload_id_marker [])))))))
      (λ v. record (read_first o) { bucket = v }) (λ v. refl)
    ∙ optional_lem (codes "-object") o.object
        (optional (codes "-file") o.file_path (
          optional (codes "-uploadid") o.upload_id (
            optional (codes "-prefix") o.prefix (
              optional (codes "-delimiter") o.delimiter (
                optional (codes "-key-marker") o.key_marker
                  (optional (codes "-upload-id-marker") o.upload_id_marker []))))))
        (λ v. record (read_first o) { bucket = o.bucket; object = v }) (λ v. refl)
    ∙ optional_lem (codes "-file") o.file_path
        (optional (codes "-uploadid") o.upload_id (
          optional (codes "-prefix") o.prefix (
            optional (codes "-delimiter") o.delimiter (
              optional (codes "-key-marker") o.key_marker
                (optional (codes "-upload-id-marker") o.upload_id_marker [])))))
        (λ v. record (read_first o) { bucket = o.bucket; object = o.object; file_path = v })
        (λ v. refl)
    ∙ optional_lem (codes "-uploadid") o.upload_id
        (optional (codes "-prefix") o.prefix (
          optional (codes "-delimiter") o.delimiter (
            optional (codes "-key-marker") o.key_marker
              (optional (codes "-upload-id-marker") o.upload_id_marker []))))
        (λ v. record (read_first o) {
          bucket = o.bucket;
          object = o.object;
          file_path = o.file_path;
          upload_id = v;
        })
        (λ v. refl)
    ∙ optional_lem (codes "-prefix") o.prefix
        (optional (codes "-delimiter") o.delimiter (
          optional (codes "-key-marker") o.key_marker
            (optional (codes "-upload-id-marker") o.upload_id_marker [])))
        (λ v. record (read_first o) {
          bucket = o.bucket;
          object = o.object;
          file_path = o.file_path;
          upload_id = o.upload_id;
          prefix = v;
        })
        (λ v. refl)
    ∙ optional_lem (codes "-delimiter") o.delimiter
        (optional (codes "-key-marker") o.key_marker
          (optional (codes "-upload-id-marker") o.upload_id_marker []))
        (λ v. record (read_first o) {
          bucket = o.bucket;
          object = o.object;
          file_path = o.file_path;
          upload_id = o.upload_id;
          prefix = o.prefix;
          delimiter = v;
        })
        (λ v. refl)
    ∙ optional_lem (codes "-key-marker") o.key_marker
        (optional (codes "-upload-id-marker") o.upload_id_marker [])
        (λ v. record (read_first o) {
          bucket = o.bucket;
          object = o.object;
          file_path = o.file_path;
          upload_id = o.upload_id;
          prefix = o.prefix;
          delimiter = o.delimiter;
          key_marker = v;
        })
        (λ v. refl)
    ∙ optional_lem (codes "-upload-id-marker") o.upload_id_marker []
        (λ v. record (read_first o) {
          bucket = o.bucket;
          object = o.object;
          file_path = o.file_path;
          upload_id = o.upload_id;
          prefix = o.prefix;
          delimiter = o.delimiter;
          key_marker = o.key_marker;
          upload_id_marker = v;
        })
        (λ v. refl)

atoi_lem : (x : ℤ) (n : ℕ) → x ≡ pos n → n < 2 ^ 31 → atoi (signed_decimal x) ≡ x
atoi_lem x n e h = rw e (ap atoi (sym (append-nil (decimal n))) ∙ atoi-decimal n [] h refl)

atoll_lem : (x : ℤ) (n : ℕ) → x ≡ pos n → n < 2 ^ 63 → atoll (signed_decimal x) ≡ x
atoll_lem x n e h = rw e (ap atoll (sym (append-nil (decimal n))) ∙ atoll-decimal n [] h refl)

same_numbers :
    (o : Options) (part part_size max_uploads : ℤ)
    → part ≡ o.part
    → part_size ≡ o.part_size
    → max_uploads ≡ o.max_uploads
    → record o { part = part; part_size = part_size; max_uploads = max_uploads } ≡ o
same_numbers o part part_size max_uploads ep es eu = rw (ep, es, eu) refl

checked_lem :
    (argv : List Bytes) (o p : Options)
    → parse_loop argv init_options ≡ some p
    → p ≡ o
    → check_options o ≡ some o
    → parse_args argv ≡ some o
unfolding parse_args
checked_lem argv o p e d h = rw (parse_args, e, d) h

-- Options that are written as arguments and read again are the same: for options that the checks
-- behind the loop let through, with numbers that are not negative and in the range of their types.
pub parse_args-arguments :
    (o : Options) (p size uploads : ℕ)
    → o.part ≡ pos p
    → o.part_size ≡ pos size
    → o.max_uploads ≡ pos uploads
    → p < 2 ^ 31
    → size < 2 ^ 63
    → uploads < 2 ^ 63
    → check_options o ≡ some o
    → parse_args (arguments o) ≡ some o
parse_args-arguments o p size uploads ep es eu hp hs hu h =
    checked_lem (arguments o) o _ (loop_lem o)
      (same_numbers o _ _ _ (atoi_lem o.part p ep hp) (atoll_lem o.part_size size es hs)
        (atoll_lem o.max_uploads uploads eu hu))
      h
