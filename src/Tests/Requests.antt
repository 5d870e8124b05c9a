-- ===== src/Tests/Requests.antt =====
-- Requests to a server that answers, and the texts that go into them.
use storefs.Prelude.{
  zero, suc, ap, length-append, ℕ, true, ◌≡◌, ◌<◌, refl, ◌++◌, none, some, [], ◌∷◌, arith, length,
  concat,
}
use storefs.Prelude.Int.{pos, negsuc}
use storefs.Prelude.Text.{Bytes, codes, starts_with, same_text}
use storefs.Prelude.Decimal.{decimal}
use storefs.Os.{Os}
use storefs.Sign as One
use storefs.Sign.{Config, Signed}
use storefs.Client.{header_lines}
use storefs.Client.Size.{OtherLine, length_line, header_lines-length_line}
use storefs.Multipart.Requests.{list_query, list_pieces}
use storefs.Multipart.Requests.Query.{
  query_text, list_settings, list_query-query_text, list_query_overflow,
}
use storefs.Multipart.Options.{Options, init_options, check_options, parse_args}
use storefs.Multipart.Options.RoundTrip.{arguments, parse_args-arguments}
use storefs.Tests.Machines.{working}

unfoldable pub zero_bytes : ℕ → Bytes
zero_bytes zero = []
zero_bytes (suc n) = 0 ∷ zero_bytes n

pub length-zero_bytes : (n : ℕ) → length (zero_bytes n) ≡ n
unfolding zero_bytes
length-zero_bytes zero = refl
length-zero_bytes (suc n) = ap suc (length-zero_bytes n)

-- Files and mappings work, of zeros, and the server answers each request with the start of an upload,
-- in two chunks.
abbrev pub answering : Os
answering = record working {
  fopen = λ t path. some 4;
  fstat = λ t f. some (pos 20);
  fseeko = λ t f offset. true;
  fread = λ t f n. zero_bytes n;
  fwrite = λ t f s. length s;
  mmap = λ t n. some 4096;
  memory = λ t p n. zero_bytes n;
  easy_init = λ t. some 3;
  perform = λ t r. record {
    done = true;
    status = 200;
    lines = [];
    chunks = codes "<UploadId>" ∷ codes "u1</UploadId>" ∷ [];
  };
}

abbrev pub shop : Config
shop = record {
  endpoint = codes "http://s:9000";
  region = codes "us-east-1";
  access_key = codes "ak";
  secret_key = codes "sk";
}

other_line : OtherLine (codes "ETag: 1")
unfolding starts_with One.to_lower
other_line = refl

header_lines-length_line_example :
    header_lines (length_line 7 ∷ (length_line 4096 ∷ codes "ETag: 1" ∷ [])) (negsuc 0) ≡ pos 4096
header_lines-length_line_example =
    header_lines-length_line (length_line 7 ∷ []) 4096 (codes "ETag: 1" ∷ []) (negsuc 0)
      (omega arith) (other_line, tt)

short_query :
    length (query_text (list_settings (some (codes "/")) none (pos 10) (some (codes "p")) none))
    < 1024
unfolding query_text decimal
short_query = omega arith

list_query-query_text_example :
    list_query (some (codes "/")) none (pos 10) (some (codes "p")) none
    ≡ some (query_text (list_settings (some (codes "/")) none (pos 10) (some (codes "p")) none))
list_query-query_text_example =
    list_query-query_text (some (codes "/")) none (pos 10) (some (codes "p")) none short_query

-- A prefix of the given length.
letters : ℕ → Bytes
letters zero = []
letters (suc n) = b'a' ∷ letters n

length-letters : (n : ℕ) → length (letters n) ≡ n
unfolding letters
length-letters zero = refl
length-letters (suc n) = ap suc (length-letters n)

long_query : 1016 < length (concat (list_pieces none none (pos 10) (some (letters 1100)) none))
unfolding list_pieces decimal
long_query = omega (
  arith,
  length-letters 1100,
  length-append (codes "&prefix=" ++ letters 1100) [],
  length-append (letters 1100) [],
)

list_query_overflow_example :
    list_query none none (pos 10) (some (letters 1100)) (some (codes "m")) ≡ none
list_query_overflow_example =
    list_query_overflow none none (pos 10) (some (letters 1100)) (codes "m") long_query

abbrev pub opts : Options
opts = record init_options {
  bucket = some (codes "b");
  object = some (codes "o");
  file_path = some (codes "f.bin");
  rdma_dev = codes "mlx5_0";
  part_size = pos 8;
  part = pos 2;
}

checked_opts : check_options opts ≡ some opts
unfolding check_options same_text
checked_opts = refl

parse_args-arguments_example : parse_args (arguments opts) ≡ some opts
parse_args-arguments_example =
    parse_args-arguments opts 2 8 1000 refl refl refl (omega arith) (omega arith) (omega arith)
      checked_opts
