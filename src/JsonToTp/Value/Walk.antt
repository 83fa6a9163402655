-- ===== src/JsonToTp/Value/Walk.antt =====
-- The events of a whole value, within the parameters of a request.
use nginx_upstream_module.Common.{
  ℕ, suc, ◌+◌, ◌-◌, ◌%◌, ◌^◌, ◌≤◌, ◌≡◌, refl, arith, Bool, List, ◌∷◌, ◌++◌, Bytes, length,
  length-append, replicate,
}
use nginx_upstream_module.Tp.{TpLib, Item, nil, bool, str}
use nginx_upstream_module.Tp.Frame.{framed_out}
use nginx_upstream_module.JsonToTp.State.{
  type_map, type_array, StackItem, Ctx, grow_item, stack_grow,
}
use nginx_upstream_module.JsonToTp.Callbacks.{
  yajl_null, yajl_boolean, yajl_integer, yajl_double, yajl_string, yajl_map_key, started_key,
  integer_item,
}
use nginx_upstream_module.JsonToTp.Machine.{
  Event, start_map, end_map, start_array, end_array, callback,
}
use nginx_upstream_module.JsonToTp.Alloc.{IsAlloc, Reallocates, new_item}
use nginx_upstream_module.JsonToTp.Value.{
  Json, Items, Fields, null, boolean, integer, number, string, list, object, none, item, end, field,
  events, events_items, events_fields, count_items, count_fields, depth, depth_items, depth_fields,
  msgpack, msgpack_items, msgpack_fields,
}
use nginx_upstream_module.JsonToTp.Value.Steps.{
  grow_by, start_array-place, start_map-place, end_array-place, end_map-place,
}
use nginx_upstream_module.JsonToTp.Value.Walks.{
  Walks, Walks-step, Walks-container, counted, Walks-refl, Walks-trans, map_keeps, map_type,
}

module _ (lib : TpLib) (realloc : ℕ → Bool) (gives : Reallocates realloc) (base : Ctx) (pre : Bytes)
    (sync : ℕ) where
  mutual
    unfolding callback yajl_null yajl_boolean yajl_integer yajl_double yajl_string yajl_map_key
        started_key stack_grow

    walk :
        (v : Json) (es : List Event) (post : Bytes) (room : ℕ) (top under : StackItem)
        (stk : List StackItem) (a : ℕ)
        → IsAlloc a (suc (suc (length stk)))
        → suc (suc (length stk)) + depth v ≤ 240
        → length (msgpack lib v) ≤ room
        → Walks lib realloc gives base pre sync
            (events v es)
            es
            post
            (msgpack lib v)
            room
            top
            (grow_item type_array top)
            under
            stk
            a
    walk null es post room top under stk a al d h =
        Walks-step lib realloc gives base pre sync _ es nil post room top _ under stk a al h refl
    walk (boolean b) es post room top under stk a al d h =
        Walks-step lib realloc gives base pre sync _ es (bool b) post room top _ under stk a al h
          refl
    walk (integer n) es post room top under stk a al d h =
        Walks-step lib realloc gives base pre sync _ es (integer_item n) post room top _ under stk a
          al h refl
    walk (number x) es post room top under stk a al d h =
        Walks-step lib realloc gives base pre sync _ es (Item.double x) post room top _ under stk a
          al h refl
    walk (string s) es post room top under stk a al d h =
        Walks-step lib realloc gives base pre sync _ es (str s) post room top _ under stk a al h
          refl
    walk (list xs) es post room top under stk a al d h =
        Walks-container lib realloc gives base pre sync type_array 0xdd start_array end_array
          (events_items xs (end_array ∷ es)) es post (msgpack_items lib xs) room
          (count_items xs % 2 ^ 32) top under stk a
          (
            start_array-place lib base pre sync realloc gives,
            end_array-place lib base pre sync realloc gives,
          )
          al (omega arith) (omega arith)
          (λ b al'. rw (counted (count_items xs) type_array (length (framed_out pre post))) at (
            walk_items xs (end_array ∷ es) (post ++ replicate 5 0) (room - 5)
              (new_item (length (framed_out pre post)) type_array) (grow_item type_array top)
              (under ∷ stk) b al' (omega arith) (omega arith)))
    walk (object fs) es post room top under stk a al d h =
        Walks-container lib realloc gives base pre sync type_map 0xdf start_map end_map
          (events_fields fs (end_map ∷ es)) es post (msgpack_fields lib fs) room
          (count_fields fs % 2 ^ 32) top under stk a
          (
            start_map-place lib base pre sync realloc gives,
            end_map-place lib base pre sync realloc gives,
          )
          al (omega arith) (omega arith)
          (λ b al'. rw (counted (count_fields fs) type_map (length (framed_out pre post))) at (
            walk_fields fs (end_map ∷ es) (post ++ replicate 5 0) (room - 5)
              (new_item (length (framed_out pre post)) type_map) (grow_item type_array top)
              (under ∷ stk) b al' refl (omega arith) (omega arith)))

    walk_items :
        (xs : Items) (es : List Event) (post : Bytes) (room : ℕ) (top under : StackItem)
        (stk : List StackItem) (a : ℕ)
        → IsAlloc a (suc (suc (length stk)))
        → suc (suc (length stk)) + depth_items xs ≤ 240
        → length (msgpack_items lib xs) ≤ room
        → Walks lib realloc gives base pre sync
            (events_items xs es)
            es
            post
            (msgpack_items lib xs)
            room
            top
            (grow_by (count_items xs) type_array top)
            under
            stk
            a
    walk_items none es post room top under stk a al d h =
        Walks-refl lib realloc gives base pre sync es post room top under stk a al
    walk_items (item x xs) es post room top under stk a al d h =
        Walks-trans lib realloc gives base pre sync _ _ es post (msgpack lib x)
          (msgpack_items lib xs) room top _ _ under stk a
          (walk x (events_items xs es) post room top under stk a al (omega arith)
            (omega (arith, length-append (msgpack lib x) (msgpack_items lib xs))))
          (λ b al'.
            walk_items xs es (post ++ msgpack lib x) (room - length (msgpack lib x))
              (grow_item type_array top) under stk b al' (omega arith)
              (omega (arith, length-append (msgpack lib x) (msgpack_items lib xs))))

    walk_fields :
        (fs : Fields) (es : List Event) (post : Bytes) (room : ℕ) (top under : StackItem)
        (stk : List StackItem) (a : ℕ)
        → IsAlloc a (suc (suc (length stk)))
        → top.type ≡ type_map
        → suc (suc (length stk)) + depth_fields fs ≤ 240
        → length (msgpack_fields lib fs) ≤ room
        → Walks lib realloc gives base pre sync
            (events_fields fs es)
            es
            post
            (msgpack_fields lib fs)
            room
            top
            (grow_by (count_fields fs) type_map top)
            under
            stk
            a
    walk_fields end es post room top under stk a al m d h =
        Walks-refl lib realloc gives base pre sync es post room top under stk a al
    walk_fields (field k v fs) es post room top under stk a al m d h =
        let key = lib.item_bytes (str k) in
        let n = length-append key (msgpack lib v ++ msgpack_fields lib fs) in
        let n' = length-append (msgpack lib v) (msgpack_fields lib fs) in
        Walks-trans lib realloc gives base pre sync _ _ es post key
          (msgpack lib v ++ msgpack_fields lib fs) room top _ _ under stk a
          (Walks-step lib realloc gives base pre sync _ (events v (events_fields fs es)) (str k)
            post room top (grow_item type_map top) under stk a al (omega (arith, n)) refl)
          (λ b al'.
            Walks-trans lib realloc gives base pre sync _ _ es (post ++ key) (msgpack lib v)
              (msgpack_fields lib fs) (room - length key) (grow_item type_map top)
              (grow_item type_map top) _ under stk b
              (rw (map_keeps top m) at (
                walk v (events_fields fs es) (post ++ key) (room - length key)
                  (grow_item type_map top) under stk b al' (omega arith) (omega (arith, n, n'))))
              (λ c al''.
                walk_fields fs es ((post ++ key) ++ msgpack lib v)
                  (room - length key - length (msgpack lib v)) (grow_item type_map top) under stk c
                  al'' (map_type top m) (omega arith) (omega (arith, n, n'))))

  -- Within the parameters, below the level of the request, the callbacks over the events of any
  -- JSON value append the MessagePack form of the value and count it once in the container around
  -- it, where that form fits the buffer and the nesting stays within 240 containers.
  pub run-events :
      (v : Json) (es : List Event) (post : Bytes) (room : ℕ) (top under : StackItem)
      (stk : List StackItem) (a : ℕ)
      → IsAlloc a (suc (suc (length stk)))
      → suc (suc (length stk)) + depth v ≤ 240
      → length (msgpack lib v) ≤ room
      → Walks lib realloc gives base pre sync
          (events v es)
          es
          post
          (msgpack lib v)
          room
          top
          (grow_item type_array top)
          under
          stk
          a
  run-events = walk

  pub run-events_items :
      (xs : Items) (es : List Event) (post : Bytes) (room : ℕ) (top under : StackItem)
      (stk : List StackItem) (a : ℕ)
      → IsAlloc a (suc (suc (length stk)))
      → suc (suc (length stk)) + depth_items xs ≤ 240
      → length (msgpack_items lib xs) ≤ room
      → Walks lib realloc gives base pre sync
          (events_items xs es)
          es
          post
          (msgpack_items lib xs)
          room
          top
          (grow_by (count_items xs) type_array top)
          under
          stk
          a
  run-events_items = walk_items
