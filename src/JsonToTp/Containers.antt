-- ===== src/JsonToTp/Containers.antt =====
-- The callbacks for the starts and the ends of maps and arrays.
use nginx_upstream_module.Common.{
  ℕ, ◌+◌, Bool, true, not, Option, none, some, ◌∷◌, ltb, ◌==◌, if◌then◌else◌, length, replicate,
}
use nginx_upstream_module.Tp.{
  Tp, Attempt, ok, null, assert_failed, array, TpLib, be32, poke, tp_call_wof_add_params,
}
use nginx_upstream_module.JsonToTp.State.{
  init, wait_next, type_map, type_array, ItemType, StackItem, Ctx, Outcome, continue, cancel, fault,
  say_error, say_overflow, say_wrong_params, stack_overflow, is_params, is_init, has_data,
  no_stages, stack_grow, stack_pop, stack_push, pushed, refused, wild,
}
use nginx_upstream_module.JsonToTp.Callbacks.{wrote_or_overflow}

-- `*(item->ptr++) = mark; *(uint32_t *) item->ptr = mp_bswap_u32(count);`
abbrev pub close_item : Ctx → StackItem → ℕ → ℕ → Ctx
close_item s item mark count = record s {
  tp = record (s.tp) { out = poke s.tp.out item.ptr (mark ∷ be32 count) };
}

-- The rest of yajl_end_map and yajl_end_array, with the item that was popped.
unfoldable pub close_map : Option StackItem → Ctx → Outcome
close_map none s = cancel (say_wrong_params s)
close_map (some item) s =
    if length s.stack == 1
    then cancel (say_wrong_params s)
    else continue (close_item s item 0xdf item.count)

abbrev pub close_map_in_params : Option StackItem → Ctx → Outcome
close_map_in_params item s = if not (is_params s.stage) then continue s else close_map item s

unfoldable pub close_array : Option StackItem → Ctx → Outcome
close_array none s = cancel (say_wrong_params s)
close_array (some item) s =
    if length s.stack == 1
    then (let s' = record s {
      stage = wait_next;
      been_stages = record (s.been_stages) { params_ = true };
    } in
        continue (close_item s' item 0xdd (if has_data s.tc then item.count + 1 else item.count)))
    else continue (close_item s item 0xdd item.count)

unfoldable pub yajl_end_array : Ctx → Outcome
yajl_end_array s =
    let (item, s') = stack_pop s in
    if not (is_params s'.stage) then continue s' else close_array item s'

module _ (lib : TpLib) (realloc : ℕ → Bool) where
  open lib use {tp_encode, tp_ensure, tp_add}

  -- bind_data: the bytes of the HTTP request, if there are any; `none` is false.
  unfoldable pub bind_data : Ctx → Attempt
  bind_data s =
      if has_data s.tc
      then (if ltb s.tp.room (length s.tc.data_) then null else tp_add s.tp s.tc.data_)
      else ok s.tp

  -- The five bytes of a container's header are left out, to be filled when it ends.
  unfoldable pub skip_header : Ctx → (Tp → Outcome) → Outcome
  skip_header s then_ =
      if ltb s.tp.room 5
      then say_overflow s
      else wrote_or_overflow s (tp_add s.tp (replicate 5 0)) then_

  -- The item for a container that begins, and its header within the parameters.
  unfoldable pub open_container : Ctx → ItemType → (Ctx → Outcome) → Outcome
  open_container s type then_ =
      elim (stack_push realloc (stack_grow s type_array) (length s.tp.out) type) [
        | refused s' ↦ cancel (say_error s' 32603 stack_overflow)
        | wild ↦ fault
        | pushed s' ↦
            if not (is_params s'.stage)
            then continue s'
            else skip_header s' (λ t. then_ (record s' { tp = t }))
      ]

  unfoldable pub yajl_start_map : Ctx → Outcome
  yajl_start_map s = open_container s type_map continue

  -- The first level of the parameters takes the bound data.
  unfoldable pub yajl_start_array : Ctx → Outcome
  yajl_start_array s =
      if is_init s.stage
      then continue (record s { batch_mode_on = true })
      else open_container s type_array (λ s'.
        if length s'.stack == 2
        then wrote_or_overflow s' (bind_data s') (λ t. continue (record s' { tp = t }))
        else continue s')

  -- A request with no "params" is given empty ones. The result of tp_encode_array is not looked at.
  unfoldable pub add_empty_params : Ctx → (Tp → Outcome) → Outcome
  add_empty_params s then_ = wrote_or_overflow s (tp_call_wof_add_params lib s.tp) (λ t.
      if has_data s.tc
      then elim (tp_encode (array 1) t) [
        | assert_failed ↦ fault
        | ok t' ↦ wrote_or_overflow s (bind_data (record s { tp = t' })) then_
        | null ↦ wrote_or_overflow s (bind_data (record s { tp = t })) then_
      ]
      else elim (tp_encode (array 0) t) [
        | assert_failed ↦ fault
        | ok t' ↦ then_ t'
        | null ↦ then_ t
      ])

  -- The outermost map of a request has ended.
  unfoldable pub end_request : Ctx → (Ctx → Outcome) → Outcome
  end_request s then_ =
      let idle = λ (t : Tp). then_ (record s { tp = t; stage = init; been_stages = no_stages }) in
      if not s.been_stages.params_ then add_empty_params s idle else idle s.tp

  unfoldable pub yajl_end_map : Ctx → Outcome
  yajl_end_map s =
      let (item, s') = stack_pop s in
      elim item [
        | none ↦ close_map_in_params none s'
        | some it ↦
            if length s'.stack == 0
            then end_request s' (close_map_in_params (some it))
            else close_map_in_params (some it) s'
      ]
