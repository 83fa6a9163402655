-- ===== src/Handlers/Sample.antt =====
-- A body of two requests in two buffers, and all that a handler needs for it.

use nginx_upstream_module.Common.{
  Bytes, List, ℕ, codes, ◌≤◌, ◌+◌, if◌then◌else◌, ◌≡◌, length, ◌∷◌, leb, ◌++◌, true, [], Bool-cases,
  arith, inl, length-append, inr, ap, ◌∙◌, refl, le→leb, Bool, bytes_eq, leb→le, false, ltb, take,
  drop, none,
}
use nginx_upstream_module.JsonToTp.Codec.{Yajl}
use nginx_upstream_module.Handlers.Pieces.{ReadsPieces, body_text}
use nginx_upstream_module.JsonToTp.Request.{Member, id, requests_events}
use nginx_upstream_module.JsonToTp.Machine.{Event, start_array, end_array}
use nginx_upstream_module.Common.Int.{pos}
use nginx_upstream_module.Dml.Format.{BodyBuf}
use nginx_upstream_module.JsonToTp.Alloc.{Reallocates}
use nginx_upstream_module.JsonToTp.Request.Batch.{TakesEach}
use nginx_upstream_module.Handlers.{Printf}
use nginx_upstream_module.Pass.{PassConf, HttpRequest}
use nginx_upstream_module.Handlers.Body.{BodyMemory, BodyConf}
use nginx_upstream_module.Handlers.Context.{Context, reset_reader}
use nginx_upstream_module.JsonToTp.Codec.Text.{Reads, all_given}
use nginx_upstream_module.Pass.Text.{enough}
use nginx_upstream_module.Tp.Sample.{sample_lib}

-- A parser that knows a text of this size, however it is cut.
abbrev pub pair_text : Bytes
pair_text = codes "[{\"id\":7},{\"id\":8}]"

abbrev pub pair : List (List Member)
pair = (id (pos 7) ∷ []) ∷ (id (pos 8) ∷ []) ∷ []

abbrev pub pair_events : List Event
pair_events = start_array ∷ requests_events pair (end_array ∷ [])

-- The callbacks stand where the last byte is read.
abbrev pub from_to : ℕ → ℕ → List Event
from_to before after = if leb 19 before then [] else if leb 19 after then pair_events else []

from_to-append : (a b c : ℕ) → a ≤ b → b ≤ c → from_to a c ≡ from_to a b ++ from_to b c
from_to-append a b c h k = elim (Bool-cases (leb 19 a)) [
  | inl x ↦ let y : leb 19 b ≡ true = le→leb 19 b (omega (arith, leb→le 19 a x)) in rw (x, y) refl
  | inr x ↦ elim (Bool-cases (leb 19 b)) [
    | inl y ↦
        let z : leb 19 c ≡ true = le→leb 19 c (omega (arith, leb→le 19 b y)) in rw (x, y, z) refl
    | inr y ↦ rw (x, y) refl
  ]
]

abbrev pub counting_parser : Yajl
counting_parser = record {
  Handle = ℕ;
  fresh = 0;
  events = λ h input. from_to h (h + length input);
  well_formed = λ h input. true;
  after = λ h input. h + length input;
  last_events = λ h. [];
  complete = λ h. leb 19 h;
  error_text = λ h input. codes "parse error\n";
}

pub counting_parser-ReadsPieces : ReadsPieces counting_parser
counting_parser-ReadsPieces = record {
  first_well_formed = λ h a b e. refl;
  then_well_formed = λ h a b e. refl;
  events_pieces = λ h a b e.
      let n : h + length (a ++ b) ≡ h + length a + length b = omega (arith, length-append a b) in
      ap (from_to h) n
      ∙ from_to-append h (h + length a) (h + length a + length b) (omega arith) (omega arith);
  after_pieces = λ h a b e. omega (arith, length-append a b);
}

-- The body is cut within the first request.
abbrev pub first_buf : BodyBuf
first_buf = record { in_file = false; bytes = take 5 pair_text; behind = [] }

abbrev pub second_buf : BodyBuf
second_buf = record { in_file = false; bytes = drop 5 pair_text; behind = [] }

abbrev pub some_memory : ℕ → Bool
some_memory n = ltb 0 n

pub some_memory-Reallocates : Reallocates some_memory
some_memory-Reallocates n h = ground arith

pub pair-Reads :
    Reads sample_lib some_memory some_memory-Reallocates counting_parser
      (body_text (first_buf ∷ second_buf ∷ []))
      pair
unfolding bytes_eq
pair-Reads = record {
  not_empty_text = λ behind. refl;
  events_are = refl;
  accepted = refl;
  no_more = refl;
  completed = refl;
}

pub pair-TakesEach : TakesEach pair
pair-TakesEach = ((refl, tt), ((refl, tt), tt))

abbrev pub sample_printf : Printf
sample_printf = record { decimal = λ z. codes "-32001" }

abbrev pub plain_pass : PassConf
plain_pass = record {
  parse_args = false;
  unescape = false;
  pass_body = false;
  pass_headers_out = false;
  parse_urlencoded = false;
  pass_subrequest_uri = false;
}

abbrev pub body_conf : Bool → BodyConf
body_conf on = record {
  pass_on = on;
  pass = plain_pass;
  method = [];
  in_multiplier = 8;
  pass_http_request_buffer_size = 100;
}

abbrev pub all_memory : BodyMemory
all_memory = record {
  link = true;
  map_buf = true;
  passing = enough;
  out_buf = true;
  transcode = all_given;
  error_buf = true;
  wakeup_buf = true;
  wakeup = all_given;
}

abbrev pub request_of : BodyBuf → List BodyBuf → HttpRequest
request_of b bs = record {
  http_protocol = codes "1.1";
  method_name = codes "POST";
  uri = codes "/t";
  unparsed_uri = codes "/t";
  args = [];
  headers_in = [];
  headers_out = [];
  content_length_n = pos 19;
  request_bufs = b ∷ bs;
}

abbrev pub pair_request : HttpRequest
pair_request = request_of first_buf (second_buf ∷ [])

abbrev pub sample_ctx : Context
sample_ctx = record {
  reader = reset_reader (0 ∷ []);
  in_err = none;
  rest_batch_size = 0;
  batch_size = 0;
  greeting = false;
  preset_method = codes "f";
}
