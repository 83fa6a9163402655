-- ===== src/TpToJson/State.antt =====
-- The codecs' context (tp2json_t), what it reads, and its two ways to write.
use nginx_upstream_module.Common.{
  ℕ, Bool, Bytes, List, some, Option, ◌++◌, if◌then◌else◌, ◌-◌, ltb, length, ◌==◌, take, ◌∷◌, [],
  ◌<◌,
}
use nginx_upstream_module.Common.Int.{ℤ, minus}

-- What msgpuck reads at a position: the header of an array or of a map with its size, or a whole
-- value. A float and a double are their bits; an extension is skipped as a whole.
pub data Token : Type 0 where
  nil ext : Token
  bool : Bool → Token
  uint : ℕ → Token
  int : ℤ → Token
  float double : ℕ → Token
  str bin : Bytes → Token
  array map : ℕ → Token

-- The texts that the codecs report.
pub data Message : Type 0 where
  formatter_no_memory encoder_no_memory encoder_bad_arguments reply_failed : Message

-- The part of tp2json_t that printing changes: `out` is what stands from `output` to `pos`, `room`
-- is `end - pos`, and the bits TYPE_MAP and TYPE_KEY of `state`; with the error of `tc`.
pub record Writer : Type 0 where
  pub out : Bytes
  pub room : ℕ
  pub in_map : Bool
  pub in_key : Bool
  pub multireturn_skiped : ℕ
  pub errmsg : Option Message
  pub errcode : ℤ

-- The C library's "%f" for a float and for a double, by their bits: some text for each.
pub record Formats : Type 0 where
  pub format_float : ℕ → Bytes
  pub format_double : ℕ → Bytes
  pub length-format_float : (d : ℕ) → 0 < length (format_float d)
  pub length-format_double : (d : ℕ) → 0 < length (format_double d)

-- A call returns TP_TRANSCODE_OK behind what it has read, or TP_TRANSCODE_ERROR. `past_end` is a
-- `pos` behind `end`: the process writes or reads outside of its buffer. `no_fuel` is the model's.
pub data Printed : Type 0 where
  printed : Writer → List Token → Printed
  failed : Writer → Printed
  past_end no_fuel : Printed

abbrev pub say_error : Writer → Message → Writer
say_error w m = record w { errmsg = some m; errcode = minus 32603 }

-- OOM_TP2JSON.
abbrev pub no_memory : Writer → Printed
no_memory w = failed (say_error w formatter_no_memory)

abbrev pub and_then : Printed → (Writer → List Token → Printed) → Printed
and_then (printed w ts) f = f w ts
and_then (failed w) f = failed w
and_then past_end f = past_end
and_then no_fuel f = no_fuel

abbrev pub wrote : Writer → Bytes → Writer
wrote w bs = record w { out = w.out ++ bs; room = w.room - length bs }

-- APPEND_STR and APPEND_CH: the test is on the caller's `len`, and the bytes go where `pos` is.
unfoldable pub append : Writer → ℕ → Bytes → (Writer → ℕ → Printed) → Printed
append w len bs then_ =
    if ltb len (length bs)
    then no_memory w
    else if ltb w.room (length bs)
    then past_end
    else then_ (wrote w bs) (len - length bs)

-- `ctx->pos += snprintf(ctx->pos, len, …)` with all that is left as `len`, not 0: a text that fills
-- it loses its last byte to a zero, and one that does not fit moves `pos` past the end.
unfoldable pub print : Writer → Bytes → List Token → Printed
print w text ts =
    if ltb (length text) w.room
    then printed (wrote w text) ts
    else if length text == w.room
    then printed (wrote w (take (w.room - 1) text ++ (0 ∷ []))) ts
    else past_end
