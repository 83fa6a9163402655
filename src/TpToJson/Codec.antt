-- ===== src/TpToJson/Codec.antt =====
-- The codecs' entry points: tp_reply2json_transcode, tp2json_transcode, tp2json_complete, and
-- tp_dump, with tp2json_create and the options.
--
-- msgpuck and tp_reply of third_party/tp.h are libraries that the module only calls: they are the
-- parameter `Unpack`.
use nginx_upstream_module.Common.{
  ℕ, [], false, Option, Bytes, none, if◌then◌else◌, List, Bool, ltb, ◌∷◌, codes, ◌==◌, length, not,
  some, ◌^◌, ◌++◌, ◌-◌,
}
use nginx_upstream_module.TpToJson.State.{
  Writer, Formats, Token, printed, failed, Printed, print, say_error, wrote, reply_failed,
}
use nginx_upstream_module.JsonToTp.Codec.{TtResult, transcode_ok, transcode_error, tnt_error}
use nginx_upstream_module.Common.Int.{ℤ, minus, pos, negsuc}
use nginx_upstream_module.TpToJson.Internal.{tp2json_transcode_internal, decimal, signed_decimal}

-- struct tpresponse: the text of an error if there is one, the code and the number of the request,
-- 32 bits each, and what is read from `data`, nothing if that is NULL.
pub record TpReply : Type 0 where
  pub error : Option Bytes
  pub code : ℕ
  pub sync : ℕ
  pub data_ : List Token

-- `tp_reply` gives `none` for a result that is not above 0.
pub record Unpack : Type 0 where
  pub tp_reply : Bytes → Option TpReply
  pub tokens_of : Bytes → List Token
  pub formats : Formats

-- The value returned, and the context behind the call.
pub data Transcoded : Type 0 where
  returned : TtResult → Writer → Transcoded
  past_end no_fuel : Transcoded

-- tp2json_create with tp_reply_to_json_set_options, once tp_reply2json_transcode has taken the
-- option over.
abbrev pub tp2json_create : ℕ → ℕ → Writer
tp2json_create output_size skip = record {
  out = [];
  room = output_size;
  in_map = false;
  in_key = false;
  multireturn_skiped = skip;
  errmsg = none;
  errcode = minus 32700;
}

-- An int in two's complement.
abbrev pub to_int : ℕ → ℤ
to_int code = if ltb code (2 ^ 31) then pos code else negsuc (2 ^ 32 - 1 - code)

unfoldable pub code_conv : ℤ → ℤ
code_conv (pos code) =
    if code == 0 then pos 0 else if code == 32801 then minus 32601 else minus code
code_conv (negsuc n) = negsuc n

-- What "%.*s" takes of a text.
abbrev pub up_to_zero : Bytes → Bytes
up_to_zero [] = []
up_to_zero (c ∷ cs) = if c == 0 then [] else c ∷ up_to_zero cs

unfoldable pub result_head : TpReply → Bytes
result_head r = codes "{\"id\":" ++ (decimal r.sync ++ codes ",\"result\":")

unfoldable pub error_text : TpReply → Bytes → Bytes
error_text r e =
    codes "{\"id\":"
    ++ (decimal r.sync
        ++ (codes ",\"error\":{\"message\":\""
            ++ (up_to_zero e
                ++ (codes "\",\"code\":"
                    ++ (signed_decimal (code_conv (to_int r.code)) ++ codes "}")))))

-- `*ctx->pos = '}'; ++ctx->pos;` with no look at what is left.
abbrev pub close : TtResult → Writer → Transcoded
close rc w = if w.room == 0 then Transcoded.past_end else returned rc (wrote w (b'}' ∷ []))

-- The part of a call that prints, and `error_exit`, which goes back to the start of the output.
abbrev pub behind_printed : ℕ → Printed → (Writer → List Token → Transcoded) → Transcoded
behind_printed output_size (printed w ts) f = f w ts
behind_printed output_size (failed w) f =
    returned transcode_error (record w { out = []; room = output_size })
behind_printed output_size Printed.past_end f = Transcoded.past_end
behind_printed output_size Printed.no_fuel f = Transcoded.no_fuel

-- What `error_exit` of tp2json_transcode sets besides.
abbrev pub error_exit : Transcoded → Transcoded
error_exit (returned transcode_error w) =
    returned transcode_error (record w { errcode = minus 32700 })
error_exit t = t

module _ (u : Unpack) (fuel : ℕ) where
  abbrev pub transcode_internal : Writer → List Token → Printed
  transcode_internal w ts = tp2json_transcode_internal u.formats fuel w ts

  -- The printing of a reply without an error.
  unfoldable pub transcode_result : Bool → ℕ → Writer → TpReply → Transcoded
  transcode_result pure_result output_size w r =
      if pure_result
      then behind_printed output_size (transcode_internal w r.data_)
          (λ w' ts. returned transcode_ok w')
      else behind_printed output_size (print w (result_head r) r.data_) (λ w' ts.
        behind_printed output_size (transcode_internal w' ts) (λ w'' ts'. close transcode_ok w''))

  -- `if (ctx->r.error)`.
  unfoldable pub transcode_by_error : Bool → ℕ → Writer → TpReply → Option Bytes → Transcoded
  transcode_by_error pure_result output_size w r none = transcode_result pure_result output_size w r
  transcode_by_error pure_result output_size w r (some e) =
      behind_printed output_size (print w (error_text r e) []) (λ w' ts. close tnt_error w')

  unfoldable pub transcode_read : Bool → ℕ → Writer → Option TpReply → Transcoded
  transcode_read pure_result output_size w none = returned transcode_ok (say_error w reply_failed)
  transcode_read pure_result output_size w (some r) =
      transcode_by_error pure_result output_size w r r.error

  -- tp_reply2json_transcode on a whole reply, as the module calls it. A reply that cannot be read
  -- leaves the result TP_TRANSCODE_OK.
  unfoldable pub tp_reply2json_transcode : Bool → ℕ → ℕ → Bytes → Transcoded
  tp_reply2json_transcode pure_result skip output_size input =
      transcode_read pure_result output_size (tp2json_create output_size skip) (u.tp_reply input)

  -- tp2json_transcode: the length, the header and the body of a message.
  unfoldable pub tp2json_transcode : ℕ → Bytes → Transcoded
  tp2json_transcode output_size input = error_exit (
      behind_printed output_size
        (transcode_internal (tp2json_create output_size 0) (u.tokens_of input))
        (λ w ts. behind_printed output_size (transcode_internal w ts) (λ w' ts'.
          behind_printed output_size (transcode_internal w' ts')
            (λ w'' ts''. returned transcode_ok w''))))

-- tp2json_complete: the size, and TP_TRANSCODE_ERROR if nothing was written.
abbrev pub tp2json_complete : Writer → ℕ × TtResult
tp2json_complete w =
    if length w.out == 0 then (0, transcode_error) else (length w.out, transcode_ok)

-- The text that is completed; a write outside of the buffer leaves none that can be relied on.
abbrev pub completed : Transcoded → Option Bytes
completed (returned transcode_error w) = none
completed (returned rc w) = if length w.out == 0 then none else some w.out
completed Transcoded.past_end = none
completed Transcoded.no_fuel = none

-- tp_dump: the output with the byte '0' behind it, and the result; without memory, `(_, false)`.
pub data Dumped : Type 0 where
  dumped : Bytes → Bool → Dumped
  past_end no_fuel : Dumped

module _ (u : Unpack) (fuel : ℕ) where
  unfoldable pub tp_dump : Bool → ℕ → Bytes → Dumped
  tp_dump memory output_size input =
      if not memory then dumped [] false else elim (tp2json_transcode u fuel output_size input) [
        | Transcoded.past_end ↦ Dumped.past_end
        | Transcoded.no_fuel ↦ Dumped.no_fuel
        | returned rc w ↦ elim rc [
          | transcode_error ↦ dumped w.out false
          | _ ↦
              if length w.out == output_size
              then Dumped.past_end
              else dumped (w.out ++ (b'0' ∷ [])) (ltb 0 (tp2json_complete w).0)
        ]
      ]

  -- What ngx_http_tnt_send_reply gets out of the codec: create, transcode and complete; `none` on
  -- an error of any of them.
  unfoldable pub reply_json : Bool → ℕ → ℕ → Bytes → Option Bytes
  reply_json pure_result skip output_size input =
      completed (tp_reply2json_transcode u fuel pure_result skip output_size input)
