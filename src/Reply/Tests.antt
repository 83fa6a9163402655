-- ===== src/Reply/Tests.antt =====
-- Two replies to a batch, whose bytes arrive in three pieces.
use nginx_upstream_module.TpToJson.State.{Token}
use nginx_upstream_module.TpToJson.Codec.{TpReply, Unpack, result_head}
use nginx_upstream_module.TpToJson.Internal.{decimal_of}
use nginx_upstream_module.TpToJson.Value.{Value}
use nginx_upstream_module.Reply.Answers.{json_codecs, IsResult, feed-batch}
use nginx_upstream_module.Common.{
  ℕ, List, get_or, Bytes, true, false, ◌∷◌, leb, codes, [], some, arith, ◌≡◌, replicate, drop, refl,
  none,
}
use nginx_upstream_module.Reply.Filter.{
  filter, tp_read_payload, deliver, send_reply, Codecs, Reader, Delivery, read_payload,
}
use mathlib.Core.List.{flatten}
use nginx_upstream_module.Reply.Chunks.{Is}
use nginx_upstream_module.Reply.Loop.{Agrees, filter-Agrees}
use nginx_upstream_module.Reply.Reference.{reads, header, step, after_header}
use nginx_upstream_module.Reply.Stream.{feed, feed-reads}
use nginx_upstream_module.Reply.Batch.{IsAnswered, batch_at, finished}

-- Lengths are short, and the text for a reply is what follows its length.
abbrev short_codecs : Codecs
short_codecs = record {
  mp_check = λ buf. true;
  mp_is_uint = λ buf. leb (get_or buf 4 0) 127;
  mp_decode_uint = λ buf. get_or buf 4 0;
  reply_to_json = λ reply. some (drop 5 reply);
}

abbrev start_reader : Reader
start_reader = record {
  state = read_payload;
  got = [];
  stale = replicate 5 0;
  rest = 0;
  payload_size = 0;
  cache = [];
}

abbrev start_delivery : Delivery
start_delivery = record {
  batch_size = 2;
  rest_batch_size = 2;
  in_err = false;
  out_bufs = [];
  length_is_zero = false;
}

abbrev pieces : List Bytes
pieces = (0 ∷ 0 ∷ 0 ∷ []) ∷ (0 ∷ 2 ∷ 55 ∷ 56 ∷ 0 ∷ []) ∷ (0 ∷ 0 ∷ 0 ∷ 1 ∷ 57 ∷ []) ∷ []

abbrev both_answered : Delivery
both_answered = record {
  batch_size = 0;
  rest_batch_size = 0;
  in_err = false;
  out_bufs = codes "[78," ∷ codes "9]" ∷ [];
  length_is_zero = true;
}

start_reader-Is : Is start_reader (header [])
start_reader-Is = (refl, refl, omega arith, omega arith, refl)

pieces-reads :
    reads short_codecs (header []) start_delivery (flatten pieces) ≡ some (header [], both_answered)
unfolding reads step after_header tp_read_payload deliver send_reply flatten
pieces-reads = refl

feed-reads_example :
    Is (feed short_codecs start_reader start_delivery pieces).0 (header [])
    × ((feed short_codecs start_reader start_delivery pieces).1 ≡ both_answered)
feed-reads_example =
    feed-reads short_codecs pieces (header []) start_reader start_delivery
      (header [], both_answered) start_reader-Is (omega arith, (omega arith, (omega arith, tt)))
      pieces-reads

filter-Agrees_example :
    Agrees short_codecs
      (filter short_codecs 13 start_reader start_delivery (0 ∷ 0 ∷ 0 ∷ 0 ∷ 1 ∷ 57 ∷ 0 ∷ []))
      (reads short_codecs (header []) start_delivery (0 ∷ 0 ∷ 0 ∷ 0 ∷ 1 ∷ 57 ∷ 0 ∷ []))
filter-Agrees_example =
    filter-Agrees short_codecs 13 (header []) start_reader start_delivery
      (0 ∷ 0 ∷ 0 ∷ 0 ∷ 1 ∷ 57 ∷ 0 ∷ []) start_reader-Is (omega arith) (omega arith)

abbrev reply_of : ℕ → Bytes
reply_of x = 0 ∷ 0 ∷ 0 ∷ 0 ∷ 1 ∷ x ∷ []

reply_of-IsAnswered : (x : ℕ) → IsAnswered short_codecs (drop 5) (reply_of x)
reply_of-IsAnswered x = record { answer = refl; not_empty = refl }

-- The sixth byte of a reply is its number and its value.
abbrev number_reply : Bytes → TpReply
number_reply frame = record {
  error = none;
  code = 0;
  sync = get_or frame 5 0;
  data_ = Token.uint (get_or frame 5 0) ∷ [];
}

abbrev number_unpack : Unpack
number_unpack = record {
  tp_reply = λ frame. some (number_reply frame);
  tokens_of = λ frame. [];
  formats = record {
    format_float = λ d. codes "0.000000";
    format_double = λ d. codes "0.000000";
    length-format_float = λ d. omega arith;
    length-format_double = λ d. omega arith;
  };
}

abbrev number_value : Bytes → Value
number_value frame = Value.uint (get_or frame 5 0)

abbrev IsNumber : Bytes → Type 0
IsNumber frame =
    IsResult (λ buf. true) (λ buf. true) (λ buf. get_or buf 4 0) number_unpack 2 (λ frame'. 99)
      number_reply number_value frame

seven-IsNumber : IsNumber (reply_of 7)
unfolding tp_read_payload result_head decimal_of
seven-IsNumber = record {
  is_frame = record { long = omega arith; counted = refl };
  read = refl;
  no_error = refl;
  read_value = refl;
  shallow = omega arith;
  room = omega arith;
}

eight-IsNumber : IsNumber (reply_of 8)
unfolding tp_read_payload result_head decimal_of
eight-IsNumber = record {
  is_frame = record { long = omega arith; counted = refl };
  read = refl;
  no_error = refl;
  read_value = refl;
  shallow = omega arith;
  room = omega arith;
}

abbrev number_codecs : Codecs
number_codecs =
    json_codecs (λ buf. true) (λ buf. true) (λ buf. get_or buf 4 0) number_unpack 2 (λ frame. 99)
      false 0

feed-batch_example :
    (bufs : List Bytes) × ((feed number_codecs start_reader
        (batch_at 2 2 [])
        ((0 ∷ 0 ∷ 0 ∷ []) ∷ (0 ∷ 1 ∷ 7 ∷ 0 ∷ 0 ∷ []) ∷ (0 ∷ 0 ∷ 1 ∷ 8 ∷ []) ∷ [])).1
      ≡ finished bufs)
    × (flatten bufs ≡ codes "[{\"id\":7,\"result\":7},{\"id\":8,\"result\":8}]")
unfolding flatten result_head decimal_of
feed-batch_example =
    feed-batch (λ buf. true) (λ buf. true) (λ buf. get_or buf 4 0) number_unpack 2 (λ frame. 99)
      number_reply number_value
      ((0 ∷ 0 ∷ 0 ∷ []) ∷ (0 ∷ 1 ∷ 7 ∷ 0 ∷ 0 ∷ []) ∷ (0 ∷ 0 ∷ 1 ∷ 8 ∷ []) ∷ []) (reply_of 7)
      (reply_of 8) [] start_reader start_reader-Is (omega arith, (omega arith, (omega arith, tt)))
      refl (seven-IsNumber, (eight-IsNumber, tt))
