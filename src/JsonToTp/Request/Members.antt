-- ===== src/JsonToTp/Request/Members.antt =====
-- The members of a request, each from the state between members to that state again.
use nginx_upstream_module.Common.{
  refl, ℕ, ◌-◌, ◌≤◌, ◌≡◌, arith, Bool, true, [], ◌∷◌, ◌++◌, append_assoc, Bytes, length, List,
  replicate, ◌∙◌, if◌then◌else◌, append-nil, false, ◌%◌, ◌^◌, length-append,
}
use nginx_upstream_module.Common.Int.{ℤ}
use nginx_upstream_module.Tp.{TpLib, be32}
use nginx_upstream_module.Tp.Frame.{call_body, framed_out}
use nginx_upstream_module.JsonToTp.State.{type_map, BeenStages, Ctx, type_array}
use nginx_upstream_module.JsonToTp.Machine.{end_array, Event, run, run-continue}
use nginx_upstream_module.JsonToTp.Alloc.{
  new_item, IsAlloc, Reallocates, alloc_for, alloc_for-IsAlloc,
}
use nginx_upstream_module.JsonToTp.Request.{
  Member, method, params, id, setting, Takes, function_bytes, framed_out, be32, count_bound, Items,
  member_bytes, member_events, msgpack_items, member_id, count_items, params_bytes,
}
use nginx_upstream_module.JsonToTp.Value.{Items, msgpack_items, count_items}
use nginx_upstream_module.JsonToTp.Value.Walk.{run-events_items}
use nginx_upstream_module.JsonToTp.Value.Walks.{counted}
use nginx_upstream_module.JsonToTp.Request.Keys.{
  in_request, id_key, sync_at, member_been, id_value, params_key, method_key, params_open,
  method_value, params_close, method_skipped, string_skipped,
}

module _ (lib : TpLib) (base : Ctx) (pre : Bytes) (ptr : ℕ) where
  module _ (realloc : ℕ → Bool) where
    -- From the state between members, over one more member, to that state again.
    abbrev pub Serves : Member → List Event → ℕ → Bytes → ℕ → BeenStages → ℕ → Type 0
    Serves m es num post room been a =
        (b : ℕ) × IsAlloc b 1
        × (run lib realloc (member_events m es) (in_request lib base pre ptr num post room been a)
            ≡ run lib realloc es (
                in_request lib base pre ptr (member_id m num)
                  (post ++ member_bytes lib (setting base) m)
                  (room - length (member_bytes lib (setting base) m))
                  (member_been base.read_method m been) b))

    serve_id :
        (n : ℤ) (es : List Event) (num : ℕ) (post : Bytes) (room : ℕ) (been : BeenStages) (a : ℕ)
        → IsAlloc a 1
        → Takes (id n)
        → Serves (id n) es num post room been a
    serve_id n es num post room been a al t =
        let r : room - 0 ≡ room = omega arith in
        (
          a,
          al,
          run-continue lib realloc _ _ _ _ (id_key lib base pre ptr realloc num post room been a)
              ∙ run-continue lib realloc _ _ _ _
                  (id_value lib base pre ptr realloc n num post room been a t)
              ∙ rw (append-nil, r),
        )

    serve_method :
        (r : Bool) (name : Bytes) (es : List Event) (num : ℕ) (post : Bytes) (room : ℕ)
        (been : BeenStages) (a : ℕ)
        → base.read_method ≡ r
        → length (if r then function_bytes lib (setting base) name else []) ≤ room
        → run lib realloc
            (member_events (method name) es)
            (in_request lib base pre ptr num post room been a)
          ≡ run lib realloc es (
              in_request lib base pre ptr num
                (post ++ (if r then function_bytes lib (setting base) name else []))
                (room - length (if r then function_bytes lib (setting base) name else []))
                (member_been r (method name) been)
                a)
    serve_method true name es num post room been a t h =
        run-continue lib realloc _ _ _ _
          (method_key lib base pre ptr realloc num post room been a t)
        ∙ run-continue lib realloc _ _ _ _
            (method_value lib base pre ptr realloc name num post room been a t h)
    serve_method false name es num post room been a t h =
        let r : room - 0 ≡ room = omega arith in
        run-continue lib realloc _ _ _ _
          (method_skipped lib base pre ptr realloc num post room been a t)
        ∙ run-continue lib realloc _ _ _ _
            (string_skipped lib base pre ptr realloc name num post room been a)
        ∙ rw (append-nil, r)

    serve_params :
        (xs : Items) (es : List Event) (num : ℕ) (post : Bytes) (room : ℕ) (been : BeenStages)
        (a : ℕ)
        → Reallocates realloc
        → IsAlloc a 1
        → Takes (params xs)
        → length (member_bytes lib (setting base) (params xs)) ≤ room
        → Serves (params xs) es num post room been a
    serve_params xs es num post room been a gives al t h =
        let tuple = lib.mp_uint lib.tp_tuple in
        let body = (call_body lib num ++ post) ++ tuple in
        let bound = base.tc.data_ in
        let items = msgpack_items lib xs in
        let n = count_items xs % 2 ^ 32 in
        let n1 = length-append tuple (params_bytes lib (setting base) xs) in
        let n2 = length-append bound items in
        let w =
          run-events_items lib realloc gives (record base { been_stages = been }) pre
            (sync_at lib base pre ptr) xs (end_array ∷ es) ((body ++ replicate 5 0) ++ bound)
            (room - length tuple - 5 - length bound)
            (new_item (length (framed_out pre body)) type_array) (new_item ptr type_map) []
            (alloc_for a 1) (alloc_for-IsAlloc realloc a 1 al (omega arith)) t
            (omega (arith, n1, n2)) in
        let left : room - length tuple - 5 - length bound - length items
            ≡ room - length (member_bytes lib (setting base) (params xs)) =
          omega (arith, n1, n2) in
        let header = 0xdd ∷ be32 (count_bound bound n) in
        let regrouped : body ++ (header ++ (bound ++ items))
            ≡ call_body lib num ++ (post ++ member_bytes lib (setting base) (params xs)) =
          simp append_assoc in
        let w' = rw (counted (count_items xs) type_array (length (framed_out pre body))) at w.2 in
        (
          w.0,
          omega (arith, w.1),
          run-continue lib realloc _ _ _ _
                (params_key lib base pre ptr realloc num post room been a (omega (arith, n1)))
              ∙ run-continue lib realloc _ _ _ _ (
                  params_open lib base pre ptr realloc been body (room - length tuple) a al gives
                    (omega (arith, n1, n2)))
              ∙ w'
              ∙ rw
                  (
                    append_assoc (body ++ replicate 5 0) bound items,
                    append_assoc body (replicate 5 0) (bound ++ items),
                  )
                  (run-continue lib realloc _ _ _ _
                      (params_close lib base pre ptr realloc been body (bound ++ items) _ n w.0)
                    ∙ rw (left, regrouped)),
        )

    -- Every member that the codec takes is written as it should be.
    pub serve_member :
        (m : Member) (es : List Event) (num : ℕ) (post : Bytes) (room : ℕ) (been : BeenStages)
        (a : ℕ)
        → Reallocates realloc
        → IsAlloc a 1
        → Takes m
        → length (member_bytes lib (setting base) m) ≤ room
        → Serves m es num post room been a
    serve_member (method name) es num post room been a gives al t h =
        (a, al, serve_method base.read_method name es num post room been a refl h)
    serve_member (params xs) es num post room been a gives al t h =
        serve_params xs es num post room been a gives al t h
    serve_member (id n) es num post room been a gives al t h =
        serve_id n es num post room been a al t
