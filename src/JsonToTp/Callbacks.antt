-- ===== src/JsonToTp/Callbacks.antt =====
-- The callbacks for scalars and for the keys of a map.
use nginx_upstream_module.Common.{
  ℕ, ◌+◌, ◌-◌, ◌^◌, Bool, true, false, not, ◌&&◌, ltb, if◌then◌else◌, Bytes, codes, bytes_eq,
}
use nginx_upstream_module.Common.Int.{ℤ, pos, negsuc, to_u32}
use nginx_upstream_module.Tp.{
  Tp, Attempt, ok, null, assert_failed, Item, TpLib, nil, bool, uint, int, double, str, tp_call_wof,
  tp_call_wof_add_func, tp_call_wof_add_params,
}
use nginx_upstream_module.JsonToTp.State.{
  wait_next, params, id, method, type_map, type_array, Ctx, Outcome, continue, cancel, fault,
  max_batch_size, say_error, say_overflow, id_too_large, batch_too_large, is_params, is_init, is_id,
  is_method, is_wait_next, stack_grow,
}

-- The end of most callbacks: NULL is an overflow.
abbrev pub wrote_or_overflow : Ctx → Attempt → (Tp → Outcome) → Outcome
wrote_or_overflow s a then_ = elim a [
  | ok t ↦ then_ t
  | null ↦ say_overflow s
  | assert_failed ↦ fault
]

-- `v > UINT32_MAX`, in long long.
abbrev pub over_u32 : ℤ → Bool
over_u32 (pos n) = ltb (2 ^ 32 - 1) n
over_u32 (negsuc n) = false

-- A negative value goes to tp_encode_int, any other to tp_encode_uint.
abbrev pub integer_item : ℤ → Item
integer_item (pos n) = uint n
integer_item (negsuc n) = int (negsuc n)

module _ (lib : TpLib) where
  open lib use {tp_encode, tp_reqid}

  abbrev pub put_item : Ctx → Item → Outcome
  put_item s i = wrote_or_overflow s (tp_encode i s.tp) (λ t. continue (record s { tp = t }))

  unfoldable pub yajl_null : Ctx → Outcome
  yajl_null s =
      if not (is_params s.stage) then continue s else put_item (stack_grow s type_array) nil

  unfoldable pub yajl_boolean : Ctx → Bool → Outcome
  yajl_boolean s v =
      if not (is_params s.stage) then continue s else put_item (stack_grow s type_array) (bool v)

  unfoldable pub yajl_integer : Ctx → ℤ → Outcome
  yajl_integer s v =
      if is_params s.stage
      then put_item (stack_grow s type_array) (integer_item v)
      else if is_id s.stage
      then (if over_u32 v
          then cancel (say_error s 32600 id_too_large)
          else elim (tp_reqid s.tp (to_u32 v)) [
            | ok t ↦ continue (record s {
              tp = t;
              been_stages = record (s.been_stages) { id_ = true };
              stage = wait_next;
            })
            | null ↦ fault
            | assert_failed ↦ fault
          ])
      else continue s

  unfoldable pub yajl_double : Ctx → ℕ → Outcome
  yajl_double s v =
      if not (is_params s.stage) then continue s else put_item (stack_grow s type_array) (double v)

  unfoldable pub yajl_string : Ctx → Bytes → Outcome
  yajl_string s string =
      if is_params s.stage
      then put_item (stack_grow s type_array) (str string)
      else if s.read_method && is_method s.stage
      then wrote_or_overflow s (tp_call_wof_add_func lib s.tp string) (λ t. continue (record s {
        tp = t;
        stage = wait_next;
        been_stages = record (s.been_stages) { method_ = true };
      }))
      else continue (record s { stage = wait_next })

  -- The key of a member of the request itself.
  unfoldable pub request_key : Ctx → Bytes → Outcome
  request_key s key =
      if bytes_eq key (codes "params")
      then wrote_or_overflow s (tp_call_wof_add_params lib s.tp)
          (λ t. continue (record s { tp = t; stage = params }))
      else if bytes_eq key (codes "id")
      then continue (record s { stage = id })
      else if s.read_method && bytes_eq key (codes "method")
      then continue (record s { stage = method })
      else continue s

  -- A key once the request is begun.
  unfoldable pub started_key : Ctx → Bytes → Outcome
  started_key s key =
      if is_params s.stage
      then put_item (stack_grow s type_map) (str key)
      else if is_wait_next s.stage
      then request_key s key
      else continue (record s { stage = wait_next })

  abbrev pub begun : Ctx → Ctx
  begun s = record s { stage = wait_next; tc = record (s.tc) { batch_size = s.tc.batch_size + 1 } }

  -- The first key of a request writes its header, and the preset method if there is one.
  unfoldable pub begin_request : Ctx → (Ctx → Outcome) → Outcome
  begin_request s then_ =
      if ltb max_batch_size s.tc.batch_size
      then cancel (say_error s 32600 batch_too_large)
      else wrote_or_overflow s (tp_call_wof lib s.tp) (λ t.
        let s' = record s { tp = t } in
        if not s.read_method
        then wrote_or_overflow s' (tp_call_wof_add_func lib t s.tc.method)
            (λ t'. then_ (begun (record s { tp = t' })))
        else then_ (begun s'))

  unfoldable pub yajl_map_key : Ctx → Bytes → Outcome
  yajl_map_key s key =
      if is_init s.stage then begin_request s (λ s'. started_key s' key) else started_key s key
