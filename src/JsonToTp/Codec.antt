-- ===== src/JsonToTp/Codec.antt =====
-- The codec's entry points, and tp_transcode_init and tp_transcode_bind_data for this codec.
--
-- YAJL is a library that the module only calls: it is the parameter `Yajl`.
pub mod Text
use nginx_upstream_module.Common.{
  ℕ, ◌+◌, ◌-◌, Bool, true, false, not, ◌&&◌, ◌||◌, Option, none, some, List, [], ◌∷◌, Bytes, codes,
  take, bytes_eq, length, ltb, ◌==◌, if◌then◌else◌, ◌++◌,
}
use nginx_upstream_module.JsonToTp.Machine.{Event, run}
use nginx_upstream_module.JsonToTp.State.{
  Transcode, Ctx, Stage, Message, say_wrong_params, say_invalid_json, no_stages, parser_error,
  continue, cancel, fault,
}
use nginx_upstream_module.Tp.{TpLib}
use nginx_upstream_module.Common.Int.{minus}

-- The parser: for a state and an input the callbacks that it makes, whether the input is well
-- formed as far as it goes, and the state behind it; the same for the end of all input, and the
-- text of an error. The parser stops when a callback returns 0.
pub record Yajl : Type 1 where
  pub Handle : Type 0
  pub fresh : Handle
  pub events : Handle → Bytes → List Event
  pub well_formed : Handle → Bytes → Bool
  pub after : Handle → Bytes → Handle
  pub last_events : Handle → List Event
  pub complete : Handle → Bool
  pub error_text : Handle → Bytes → Bytes

-- enum tt_result.
pub data TtResult : Type 0 where
  transcode_ok transcode_error tnt_error : TtResult

-- Which of the four allocations of yajl_json2tp_create succeed.
pub record Allocs : Type 0 where
  pub ctx : Bool
  pub stack : Bool
  pub yaf : Bool
  pub hand : Bool

abbrev pub fresh_transcode : Bytes → Transcode
fresh_transcode method = record {
  errmsg = none;
  errcode = minus 32700;
  method = method;
  batch_size = 0;
  data_ = [];
}

module _ (lib : TpLib) where
  -- `none` is a crash: at `error_exit` the free function reads `tc`, which is still NULL, and
  -- without a context the last line writes through a null pointer.
  unfoldable pub yajl_json2tp_create : Allocs → Transcode → ℕ → Option Ctx
  yajl_json2tp_create allocs tc output_size =
      if allocs.ctx && (allocs.stack && (allocs.yaf && allocs.hand))
      then some (record {
        stack = [];
        allocated = 16;
        tp = lib.tp_init output_size;
        stage = Stage.init;
        batch_mode_on = false;
        been_stages = no_stages;
        read_method = not (ltb 0 (length tc.method));
        transcode_first_enter = false;
        tc = tc;
      })
      else none

  -- tp_transcode_init with YAJL_JSON_TO_TP, the method that is set beforehand, and a buffer.
  unfoldable pub tp_transcode_init : Allocs → Bytes → ℕ → Option Ctx
  unfolding yajl_json2tp_create
  tp_transcode_init allocs method output_size =
      yajl_json2tp_create allocs (fresh_transcode method) output_size

-- tp_transcode_bind_data.
abbrev pub tp_transcode_bind_data : Ctx → Bytes → Ctx
tp_transcode_bind_data s bytes = record s { tc = record (s.tc) { data_ = bytes } }

-- `strncmp(input, "[]", 2) == 0 || strncmp(input, "{}", 2) == 0`: two bytes of memory from `input`
-- on, whatever the size of the input is.
abbrev pub is_empty_text : Bytes → Bool
is_empty_text memory =
    bytes_eq (take 2 memory) (codes "[]") || bytes_eq (take 2 memory) (codes "{}")

module _ (lib : TpLib) (realloc : ℕ → Bool) (yajl : Yajl) where
  open yajl use {Handle, events, well_formed, after, last_events, complete, error_text}

  pub data Transcoded : Type 0 where
    returned : TtResult → Ctx → Handle → Transcoded
    crashed : Transcoded

  -- The parser's own message is taken if no callback has left one; its newline is cut off.
  unfoldable pub parse_failed : Ctx → Handle → Bytes → Transcoded
  parse_failed s h input = elim s.tc.errmsg [
    | some m ↦ returned transcode_error s (after h input)
    | none ↦
        let text = error_text h input in
        let l = length text - 1 in
        let e : Option Message = if ltb 0 l then some (parser_error (take l text)) else none in
        returned transcode_error
          (record s { tc = record (s.tc) { errmsg = e; errcode = minus 32700 } }) (after h input)
  ]

  unfoldable pub parse_input : Ctx → Handle → Bytes → Transcoded
  parse_input s h input = elim (run lib realloc (events h input) s) [
    | continue s' ↦
        if well_formed h input
        then returned transcode_ok s' (after h input)
        else parse_failed s' h input
    | cancel s' ↦ parse_failed s' h input
    | fault ↦ crashed
  ]

  -- `behind` is the memory behind the input.
  unfoldable pub yajl_json2tp_transcode : Ctx → Handle → Bytes → Bytes → Transcoded
  yajl_json2tp_transcode s h input behind =
      let entered = record s { transcode_first_enter = true } in
      if s.transcode_first_enter
      then parse_input s h input
      else if is_empty_text (input ++ behind)
      then returned transcode_error (say_wrong_params entered) h
      else parse_input entered h input

  -- The size of the message, written only on success.
  pub data Completed : Type 0 where
    finished : ℕ → Ctx → Completed
    failed : Ctx → Completed
    died : Completed

  abbrev pub incomplete : Ctx → Completed
  incomplete s = elim s.tc.errmsg [ none ↦ failed (say_invalid_json s) | some m ↦ failed s ]

  unfoldable pub yajl_json2tp_complete : Ctx → Handle → Completed
  yajl_json2tp_complete s h = elim (run lib realloc (last_events h) s) [
    | continue s' ↦ if complete h then finished (lib.tp_used s'.tp) s' else incomplete s'
    | cancel s' ↦ incomplete s'
    | fault ↦ died
  ]
