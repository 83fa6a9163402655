-- ===== src/TpToJson/Tests.antt =====
-- Runs of the printer on `[1,{"a":true}]`, and on replies that hold a number.
use nginx_upstream_module.Common.{
  [], true, false, codes, some, none, arith, get_or, ◌∷◌, ◌≡◌, refl, Bytes,
}
use nginx_upstream_module.TpToJson.State.{Writer, Formats, Token, printed, Printed}
use nginx_upstream_module.TpToJson.Value.{Value, item, no_values, pair, no_pairs, Key, tokens}
use nginx_upstream_module.TpToJson.Codec.{Unpack, TpReply, tp2json_create, result_head, reply_json}
use nginx_upstream_module.TpToJson.Internal.{decimal_of, tp2json_transcode_internal}
use nginx_upstream_module.TpToJson.Total.{Ends, tp2json_transcode_internal-Ends}
use nginx_upstream_module.JsonString.Spelling.{literal, spelled}
use nginx_upstream_module.JsonString.{escaped}
use nginx_upstream_module.TpToJson.Reply.{reply_json-result}
use nginx_upstream_module.TpToJson.Render.{tp2json_transcode_internal-tokens}
use nginx_upstream_module.TpToJson.Overflow.{transcode-past_end}
use nginx_upstream_module.Common.Int.{ℤ}
use nginx_upstream_module.TpToJson.Faults.{fault_text, read_signed, ShownAs, reply_json-fault}
use nginx_upstream_module.TpToJson.Digits.{read_digits}

abbrev zero_formats : Formats
zero_formats = record {
  format_float = λ d. codes "0.000000";
  format_double = λ d. codes "0.000000";
  length-format_float = λ d. omega arith;
  length-format_double = λ d. omega arith;
}

abbrev two_values : Value
two_values = Value.array (
    item (Value.uint 1)
      (item (Value.map (pair (Key.str (codes "a")) (Value.bool true) no_pairs)) no_values))

abbrev start : Writer
start = tp2json_create 40 0

tp2json_transcode_internal-tokens_example :
    tp2json_transcode_internal zero_formats 3 start (tokens two_values [])
    ≡ printed (record start { out = codes "[1,{\"a\":true}]"; room = 26 }) []
unfolding decimal_of literal spelled escaped
tp2json_transcode_internal-tokens_example =
    tp2json_transcode_internal-tokens zero_formats start two_values 3 [] 40 false [] (omega arith)
      (omega arith)

tp2json_transcode_internal-Ends_example :
    Ends 2 (tp2json_transcode_internal zero_formats 3 start (Token.array 7 ∷ Token.nil ∷ []))
tp2json_transcode_internal-Ends_example =
    tp2json_transcode_internal-Ends zero_formats 3 start (Token.array 7 ∷ Token.nil ∷ [])
      (omega arith)

transcode-past_end_example :
    tp2json_transcode_internal zero_formats 2
      (tp2json_create 4 0)
      (Token.array 1 ∷ Token.str (codes "a") ∷ [])
    ≡ Printed.past_end
unfolding literal spelled escaped
transcode-past_end_example =
    transcode-past_end zero_formats (tp2json_create 4 0) (codes "a") [] false 0 []

-- The sixth byte of a reply is its number and its value.
abbrev number_unpack : Unpack
number_unpack = record {
  tp_reply = λ buf. some (record {
    error = none;
    code = 0;
    sync = get_or buf 5 0;
    data_ = Token.uint (get_or buf 5 0) ∷ [];
  });
  tokens_of = λ buf. [];
  formats = zero_formats;
}

abbrev error_unpack : Unpack
error_unpack = record {
  tp_reply = λ buf. some (record { error = some (codes "No"); code = 32801; sync = 3; data_ = [] });
  tokens_of = λ buf. [];
  formats = zero_formats;
}

abbrev number_reply : TpReply
number_reply = record { error = none; code = 0; sync = 9; data_ = Token.uint 9 ∷ [] }

abbrev error_reply : TpReply
error_reply = record { error = some (codes "No"); code = 32801; sync = 3; data_ = [] }

reply_json-result_example :
    reply_json number_unpack 2 false 0 99 (0 ∷ 0 ∷ 0 ∷ 0 ∷ 1 ∷ 9 ∷ [])
    ≡ some (codes "{\"id\":9,\"result\":9}")
unfolding result_head decimal_of
reply_json-result_example =
    reply_json-result number_unpack 2 (0 ∷ 0 ∷ 0 ∷ 0 ∷ 1 ∷ 9 ∷ []) number_reply (Value.uint 9) 99
      refl refl refl (omega arith) (omega arith)

reply_json-fault_example :
    (number : Bytes) × (code : Bytes) × (shown : ℤ) × (reply_json error_unpack 2 true 1 99 []
      ≡ some (fault_text number (codes "No") code))
    × (read_digits 0 number ≡ some 3)
    × (read_signed code ≡ some shown)
    × ShownAs 32801 shown
reply_json-fault_example =
    reply_json-fault error_unpack 2 [] (codes "No") error_reply true 1 99 refl refl
      ((λ e. absurd (omega arith)), ((λ e. absurd (omega arith)), tt)) (omega arith) (omega arith)
      (omega arith)
