-- ===== src/JsonToTp/Request/Closing.antt =====
-- The end of a request, which is given empty parameters where it has none.
use nginx_upstream_module.Common.{
  ℕ, ◌+◌, ◌-◌, ◌≤◌, ◌≡◌, ap, ◌∙◌, arith, Bool, true, false, ◌++◌, append_assoc, append-nil, Bytes,
  length, length-append, inl, inr,
}
use nginx_upstream_module.Tp.{Tp, TpLib, tp_call_wof_add_params, array}
use nginx_upstream_module.Tp.Frame.{framed, reserve_add-framed, tp_encode-framed}
use nginx_upstream_module.JsonToTp.State.{Ctx, Stage, no_stages, Outcome, has_data}
use nginx_upstream_module.JsonToTp.Request.{
  no_stages, setting, closing_bytes, empty_params, has_data, array, count_bound,
}
use nginx_upstream_module.JsonToTp.Request.Keys.{has_data-cases, bind_data-framed}
use nginx_upstream_module.JsonToTp.Containers.{end_request, add_empty_params}

module _ (lib : TpLib) (realloc : ℕ → Bool) where
  -- The two ways of "params" that were left out, as the code tells them apart.
  add_none :
      (s : Ctx) (pre body : Bytes) (room sync : ℕ) (then_ : Tp → Outcome)
      → has_data s.tc ≡ false
      → length (lib.mp_uint lib.tp_tuple) + length (lib.item_bytes (array 0)) ≤ room
      → add_empty_params lib realloc (record s { tp = framed pre body room sync }) then_
        ≡ then_ (
            framed pre
              ((body ++ lib.mp_uint lib.tp_tuple) ++ lib.item_bytes (array 0))
              (room - length (lib.mp_uint lib.tp_tuple) - length (lib.item_bytes (array 0)))
              sync)
  unfolding add_empty_params tp_call_wof_add_params
  add_none s pre body room sync then_ e h = ground (
    arith,
    reserve_add-framed lib pre body (lib.mp_uint lib.tp_tuple) room sync (omega arith),
    tp_encode-framed lib (array 0) pre (body ++ lib.mp_uint lib.tp_tuple)
        (room - length (lib.mp_uint lib.tp_tuple)) sync (omega arith),
  )

  add_bound :
      (s : Ctx) (pre body : Bytes) (room sync : ℕ) (then_ : Tp → Outcome)
      → has_data s.tc ≡ true
      → length (lib.mp_uint lib.tp_tuple) + length (lib.item_bytes (array 1)) + length s.tc.data_
        ≤ room
      → add_empty_params lib realloc (record s { tp = framed pre body room sync }) then_
        ≡ then_ (
            framed pre
              (((body ++ lib.mp_uint lib.tp_tuple) ++ lib.item_bytes (array 1)) ++ s.tc.data_)
              (room
                - length (lib.mp_uint lib.tp_tuple)
                - length (lib.item_bytes (array 1))
                - length s.tc.data_)
              sync)
  unfolding add_empty_params tp_call_wof_add_params
  add_bound s pre body room sync then_ e h = ground (
    arith,
    reserve_add-framed lib pre body (lib.mp_uint lib.tp_tuple) room sync (omega arith),
    tp_encode-framed lib (array 1) pre (body ++ lib.mp_uint lib.tp_tuple)
        (room - length (lib.mp_uint lib.tp_tuple)) sync (omega arith),
    bind_data-framed lib realloc s pre
        ((body ++ lib.mp_uint lib.tp_tuple) ++ lib.item_bytes (array 1))
        (room - length (lib.mp_uint lib.tp_tuple) - length (lib.item_bytes (array 1))) sync
        (omega arith),
  )

  add_empty_params-framed :
      (s : Ctx) (pre body : Bytes) (room sync : ℕ) (then_ : Tp → Outcome)
      → length (empty_params lib (setting s)) ≤ room
      → add_empty_params lib realloc (record s { tp = framed pre body room sync }) then_
        ≡ then_ (
            framed pre
              (body ++ empty_params lib (setting s))
              (room - length (empty_params lib (setting s)))
              sync)
  add_empty_params-framed s pre body room sync then_ h = elim (has_data-cases s.tc) [
    | inl e ↦
        let tuple = lib.mp_uint lib.tp_tuple in
        let arr = lib.item_bytes (array 0) in
        let same : empty_params lib (setting s) ≡ tuple ++ arr =
          ap (λ d. tuple ++ (lib.item_bytes (array (count_bound d 0)) ++ d)) e.1 ∙ rw append-nil in
        let n = length-append tuple arr in
        let m : length (empty_params lib (setting s)) ≡ length (tuple ++ arr) = ap length same in
        let r : room - length tuple - length arr ≡ room - length (tuple ++ arr) =
          omega (arith, n) in
        add_none s pre body room sync then_ e.0 (omega (arith, n, m))
        ∙ rw (same, r, append_assoc body tuple arr)
    | inr e ↦
        let tuple = lib.mp_uint lib.tp_tuple in
        let arr = lib.item_bytes (array 1) in
        let bound = s.tc.data_ in
        let same : empty_params lib (setting s) ≡ tuple ++ (arr ++ bound) =
          ap (λ k. tuple ++ (lib.item_bytes (array k) ++ bound)) e.1 in
        let n = length-append tuple (arr ++ bound) in
        let n' = length-append arr bound in
        let m : length (empty_params lib (setting s)) ≡ length (tuple ++ (arr ++ bound)) =
          ap length same in
        let r : room - length tuple - length arr - length bound
            ≡ room - length (tuple ++ (arr ++ bound)) =
          omega (arith, n, n') in
        let a : ((body ++ tuple) ++ arr) ++ bound ≡ body ++ (tuple ++ (arr ++ bound)) =
          simp append_assoc in
        add_bound s pre body room sync then_ e.0 (omega (arith, n, n', m)) ∙ rw (same, r, a)
  ]

  pub end_request-in_request :
      (r : Bool) (s : Ctx) (pre body : Bytes) (room sync : ℕ) (then_ : Ctx → Outcome)
      → s.been_stages.params_ ≡ r
      → length (closing_bytes lib (setting s) r) ≤ room
      → end_request lib realloc (record s { tp = framed pre body room sync }) then_
        ≡ then_ (record s {
          tp =
              framed pre
                (body ++ closing_bytes lib (setting s) r)
                (room - length (closing_bytes lib (setting s) r))
                sync;
          stage = Stage.init;
          been_stages = no_stages;
        })
  unfolding end_request
  end_request-in_request true s pre body room sync then_ e h =
      let n : room - 0 ≡ room = omega arith in rw (e, append-nil, n)
  end_request-in_request false s pre body room sync then_ e h = simp e (
      add_empty_params-framed s pre body room sync
        (λ t. then_ (record s { tp = t; stage = Stage.init; been_stages = no_stages })) h)
