-- ===== src/JsonToTp/Request/Whole.antt =====
-- The callbacks over a whole request, from one idle state to the next.
use nginx_upstream_module.Common.{
  ℕ, ◌+◌, ◌-◌, ◌≤◌, ◌≡◌, refl, ap, ◌∙◌, arith, Bool, true, false, List, [], ◌∷◌, ◌++◌, append_assoc,
  append-nil, Bytes, length, length-append, if◌then◌else◌, some, codes,
}
use nginx_upstream_module.Tp.{
  Tp, TpLib, call_head, call_bytes, call_rest, tp_call_wof_add_func, be_field,
}
use nginx_upstream_module.Tp.Frame.{framed, call_body, tp_call_wof-framed, reserve_add-framed}
use nginx_upstream_module.JsonToTp.State.{
  Ctx, BeenStages, type_map, no_stages, stack_grow, stack_pop, grow_top, continue, Outcome,
}
use nginx_upstream_module.JsonToTp.Request.{
  Member, BeenStages, Event, no_stages, has_params, TakesAll, method, members_bytes, preset_bytes,
  params, setting, closing_bytes, id, members_events, members_id, function_bytes, be_field, packet,
  request_events, member_events, request_body,
}
use nginx_upstream_module.JsonToTp.Alloc.{
  Reallocates, new_item, IsAlloc, alloc_for, stack_push-pushed, alloc_for-IsAlloc,
}
use nginx_upstream_module.JsonToTp.Machine.{
  Event, callback, run, start_map, map_key, end_map, run-alike, run-continue,
}
use nginx_upstream_module.JsonToTp.Request.Keys.{in_request, sync_at}
use nginx_upstream_module.JsonToTp.Containers.{
  yajl_start_map, yajl_end_map, open_container, end_request, close_map_in_params,
}
use nginx_upstream_module.JsonToTp.Callbacks.{yajl_map_key, begin_request}
use nginx_upstream_module.JsonToTp.Request.Between.{
  idle, opened, serving, members_been, members_been-params, run-members,
}
use nginx_upstream_module.JsonToTp.Request.Closing.{end_request-in_request}

module _ (lib : TpLib) (realloc : ℕ → Bool) (gives : Reallocates realloc) (base : Ctx) where
  pub start-idle :
      (tp : Tp) (n a : ℕ)
      → IsAlloc a 0
      → callback lib realloc start_map (idle base tp n a)
        ≡ continue (opened base tp n (alloc_for a 0))
  unfolding callback yajl_start_map open_container stack_grow grow_top
  start-idle tp n a al = rw (
    stack_push-pushed realloc (idle base tp n a) (length tp.out) type_map gives al (omega arith),
    open_container,
  )

  begin_request-idle :
      (r : Bool) (tp : Tp) (n a : ℕ) (then_ : Ctx → Outcome)
      → base.read_method ≡ r
      → n ≤ 16384
      → length (call_bytes lib)
          + length (if r then [] else function_bytes lib (setting base) base.tc.method)
        ≤ tp.room
      → begin_request lib (opened base tp n a) then_
        ≡ then_ (
            in_request lib
              (serving base (n + 1))
              tp.out
              (length tp.out)
              0
              (if r then [] else function_bytes lib (setting base) base.tc.method)
              (tp.room
                - length (call_bytes lib)
                - length (if r then [] else function_bytes lib (setting base) base.tc.method))
              no_stages
              a)
  unfolding begin_request tp_call_wof_add_func
  begin_request-idle true tp n a then_ t small h =
      ground (arith, tp_call_wof-framed lib tp (omega arith), append-nil (call_body lib 0))
  begin_request-idle false tp n a then_ t small h = ground (
    arith,
    tp_call_wof-framed lib tp (omega arith),
    reserve_add-framed lib tp.out (call_body lib 0)
        (function_bytes lib (setting base) base.tc.method) (tp.room - length (call_bytes lib))
        (length tp.out + 5 + length (call_head lib)) (omega arith),
  )

  first_key :
      (key : Bytes) (tp : Tp) (n a : ℕ)
      → n ≤ 16384
      → length (call_bytes lib) + length (preset_bytes lib (setting base)) ≤ tp.room
      → callback lib realloc (map_key key) (opened base tp n a)
        ≡ callback lib realloc (map_key key) (
            in_request lib
              (serving base (n + 1))
              tp.out
              (length tp.out)
              0
              (preset_bytes lib (setting base))
              (tp.room - length (call_bytes lib) - length (preset_bytes lib (setting base)))
              no_stages
              a)
  unfolding callback yajl_map_key
  first_key key tp n a small h = begin_request-idle base.read_method tp n a _ refl small h

  end_in_request :
      (pre : Bytes) (n ptr num : ℕ) (post : Bytes) (room : ℕ) (been : BeenStages) (a : ℕ)
      → length (closing_bytes lib (setting base) been.params_) ≤ room
      → callback lib realloc end_map (in_request lib (serving base n) pre ptr num post room been a)
        ≡ continue (
            idle base
              (framed pre
                (call_body lib num ++ (post ++ closing_bytes lib (setting base) been.params_))
                (room - length (closing_bytes lib (setting base) been.params_))
                (sync_at lib base pre ptr))
              n
              a)
  unfolding callback yajl_end_map end_request stack_pop
  end_in_request pre n ptr num post room been a h =
      end_request-in_request lib realloc been.params_
        (record (in_request lib (serving base n) pre ptr num post room been a) { stack = [] }) pre
        (call_body lib num ++ post) room (sync_at lib base pre ptr)
        (λ s'. close_map_in_params (some (new_item ptr type_map)) s') refl h
      ∙ rw (append_assoc (call_body lib num) post)

  -- A packet is its length field and a body; only the number in the header varies with the id.
  length-call_body : (num : ℕ) → length (call_body lib num) ≡ length (call_rest lib)
  length-call_body num = omega (
    arith,
    length-append (call_head lib) (be_field num ++ lib.mp_map 2),
    length-append (call_head lib) (be_field 0 ++ lib.mp_map 2),
  )

  first_member :
      (m : Member) (es : List Event) (tp : Tp) (n a : ℕ)
      → n ≤ 16384
      → length (call_bytes lib) + length (preset_bytes lib (setting base)) ≤ tp.room
      → run lib realloc (member_events m es) (opened base tp n a)
        ≡ run lib realloc (member_events m es) (
            in_request lib
              (serving base (n + 1))
              tp.out
              (length tp.out)
              0
              (preset_bytes lib (setting base))
              (tp.room - length (call_bytes lib) - length (preset_bytes lib (setting base)))
              no_stages
              a)
  first_member (method name) es tp n a small h =
      run-alike lib realloc _ _ _ _ (first_key (codes "method") tp n a small h)
  first_member (params xs) es tp n a small h =
      run-alike lib realloc _ _ _ _ (first_key (codes "params") tp n a small h)
  first_member (id k) es tp n a small h =
      run-alike lib realloc _ _ _ _ (first_key (codes "id") tp n a small h)

  length-packet :
      (ms : List Member)
      → length (packet lib (setting base) ms)
        ≡ length (call_bytes lib)
          + length (preset_bytes lib (setting base))
          + length (members_bytes lib (setting base) ms)
          + length (closing_bytes lib (setting base) (has_params ms))
  length-packet ms =
      let p = preset_bytes lib (setting base) in
      let bs = members_bytes lib (setting base) ms in
      let c = closing_bytes lib (setting base) (has_params ms) in
      let head = call_body lib (members_id ms 0) in
      omega (
        arith,
        length-append head (p ++ (bs ++ c)),
        length-append p (bs ++ c),
        length-append bs c,
        length-call_body (members_id ms 0),
      )

  -- From the idle state with at most 16384 requests counted, the callbacks over the members of a
  -- request, at least one and each of them taken, in any order, where the packet fits the buffer,
  -- append the packet of the request, and come back to the idle state with one more request
  -- counted.
  pub run-request_events :
      (m : Member) (ms : List Member) (es : List Event) (tp : Tp) (n a : ℕ)
      → IsAlloc a 0
      → n ≤ 16384
      → TakesAll (m ∷ ms)
      → length (packet lib (setting base) (m ∷ ms)) ≤ tp.room
      → (b : ℕ) × (tp' : Tp) × IsAlloc b 0
        × (tp'.out ≡ tp.out ++ packet lib (setting base) (m ∷ ms))
        × (tp'.room ≡ tp.room - length (packet lib (setting base) (m ∷ ms)))
        × (run lib realloc (request_events (m ∷ ms) es) (idle base tp n a)
            ≡ run lib realloc es (idle base tp' (n + 1) b))
  run-request_events m ms es tp n a al small t h =
      let set = setting base in
      let all = m ∷ ms in
      let p = preset_bytes lib set in
      let bs = members_bytes lib set all in
      let num = members_id all 0 in
      let been = members_been base.read_method all no_stages in
      let c = closing_bytes lib set been.params_ in
      let size = length-packet all in
      let seen : been.params_ ≡ has_params all =
        members_been-params base.read_method all no_stages in
      let closed : c ≡ closing_bytes lib set (has_params all) = ap (closing_bytes lib set) seen in
      let closed_size = ap length closed in
      let room = tp.room - length (call_bytes lib) - length p in
      let first = alloc_for a 0 in
      let ptr = length tp.out in
      let sync = sync_at lib base tp.out ptr in
      let walked =
        run-members lib realloc gives all (end_map ∷ es) (serving base (n + 1)) tp.out ptr 0 p room
          no_stages first (alloc_for-IsAlloc realloc a 0 al (omega arith)) t
          (omega (arith, size)) in
      let body : call_body lib num ++ ((p ++ bs) ++ c) ≡ request_body lib set all =
        rw (closed, append_assoc p bs) in
      let left : room - length bs - length c ≡ tp.room - length (packet lib set all) =
        omega (arith, size, closed_size) in
      (
        walked.0,
        framed tp.out (request_body lib set all) (room - length bs - length c) sync,
        omega (arith, walked.1),
        refl,
        left,
        run-continue lib realloc _ _ _ _ (start-idle tp n a al)
            ∙ first_member m (members_events ms (end_map ∷ es)) tp n first small
                (omega (arith, size))
            ∙ walked.2
            ∙ run-continue lib realloc _ _ _ _ (
                end_in_request tp.out (n + 1) ptr num (p ++ bs) (room - length bs) been walked.0
                  (omega (arith, size, closed_size)))
            ∙ rw body,
      )
