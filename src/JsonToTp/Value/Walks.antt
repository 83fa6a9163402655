-- ===== src/JsonToTp/Value/Walks.antt =====
-- A walk over some events within the parameters: what it appends, and what it counts.
use nginx_upstream_module.Common.{
  ℕ, suc, ◌+◌, ◌-◌, ◌%◌, ◌^◌, ◌≤◌, ◌<◌, ◌≡◌, refl, ◌∙◌, arith, Bool, List, [], ◌∷◌, ◌++◌,
  append_assoc, append-nil, Bytes, length, length-append, replicate,
}
use nginx_upstream_module.Tp.{TpLib, Item, be32}
use nginx_upstream_module.Tp.Frame.{framed_out}
use nginx_upstream_module.JsonToTp.State.{
  type_map, type_array, StackItem, Ctx, continue, grow_item, ItemType,
}
use nginx_upstream_module.JsonToTp.Callbacks.{put_item}
use nginx_upstream_module.JsonToTp.Machine.{Event, callback, run, run-continue}
use nginx_upstream_module.JsonToTp.Alloc.{
  IsAlloc, Reallocates, new_item, alloc_for, alloc_for-IsAlloc,
}
use nginx_upstream_module.JsonToTp.Value.Steps.{grow_by, grow_by_lem, place, put_item-place}

-- The value of a member does not count in its map.
pub map_keeps :
    (i : StackItem)
    → i.type ≡ type_map
    → grow_item type_array (grow_item type_map i) ≡ grow_item type_map i
unfolding grow_item
map_keeps i e = ground arith

pub map_type : (i : StackItem) → i.type ≡ type_map → (grow_item type_map i).type ≡ type_map
unfolding grow_item
map_type i e = ground arith

pub counted :
    (n : ℕ) (t : ItemType) (ptr : ℕ)
    → grow_by n t (new_item ptr t) ≡ record { ptr = ptr; count = n % 2 ^ 32; type = t }
counted n t ptr =
    let e : (0 + n) % 2 ^ 32 ≡ n % 2 ^ 32 = omega arith in
    grow_by_lem n t (new_item ptr t) refl (omega arith) ∙ rw e

module _ (lib : TpLib) (realloc : ℕ → Bool) (gives : Reallocates realloc) (base : Ctx) (pre : Bytes)
    (sync : ℕ) where
  abbrev pub at : Bytes → ℕ → StackItem → StackItem → List StackItem → ℕ → Ctx
  at post room top under stk a = place base pre sync post room (top ∷ under ∷ stk) a

  -- The events up to `es'` append `bs` to the request, and leave the top item as `top'`.
  abbrev pub Walks :
      List Event
      → List Event
      → Bytes
      → Bytes
      → ℕ
      → StackItem
      → StackItem
      → StackItem
      → List StackItem
      → ℕ
      → Type 0
  Walks es es' post bs room top top' under stk a =
      (b : ℕ) × IsAlloc b (suc (suc (length stk)))
      × (run lib realloc es (at post room top under stk a)
          ≡ run lib realloc es' (at (post ++ bs) (room - length bs) top' under stk b))

  pub Walks-step :
      (e : Event) (es : List Event) (i : Item) (post : Bytes) (room : ℕ)
      (top top' under : StackItem) (stk : List StackItem) (a : ℕ)
      → IsAlloc a (suc (suc (length stk)))
      → length (lib.item_bytes i) ≤ room
      → callback lib realloc e (at post room top under stk a)
        ≡ put_item lib (at post room top' under stk a) i
      → Walks (e ∷ es) es post (lib.item_bytes i) room top top' under stk a
  Walks-step e es i post room top top' under stk a al h c = (
    a,
    al,
    run-continue lib realloc e es _ _
        (c ∙ put_item-place lib base pre sync i post room (top' ∷ under ∷ stk) a h),
  )

  pub Walks-trans :
      (es es' es'' : List Event) (post bs cs : Bytes) (room : ℕ) (top top' top'' under : StackItem)
      (stk : List StackItem) (a : ℕ)
      → Walks es es' post bs room top top' under stk a
      → ((b : ℕ)
          → IsAlloc b (suc (suc (length stk)))
          → Walks es' es'' (post ++ bs) cs (room - length bs) top' top'' under stk b)
      → Walks es es'' post (bs ++ cs) room top top'' under stk a
  Walks-trans es es' es'' post bs cs room top top' top'' under stk a w k =
      let next = k w.0 w.1 in
      let n : room - length bs - length cs ≡ room - length (bs ++ cs) =
        omega (arith, length-append bs cs) in
      (next.0, next.1, w.2 ∙ rw (← append_assoc post bs cs, ← n) next.2)

  pub Walks-refl :
      (es : List Event) (post : Bytes) (room : ℕ) (top under : StackItem) (stk : List StackItem)
      (a : ℕ)
      → IsAlloc a (suc (suc (length stk)))
      → Walks es es post [] room top top under stk a
  Walks-refl es post room top under stk a al =
      let n : room - 0 ≡ room = omega arith in (a, al, rw (append-nil, n))

  -- What a container's callbacks make of the walk over its elements.
  abbrev pub Closes : (t : ItemType) (mark : ℕ) (first last : Event) → Type 0
  Closes t mark first last =
      ((post : Bytes) (room : ℕ) (top under : StackItem) (stk : List StackItem) (a : ℕ)
        → IsAlloc a (length (top ∷ under ∷ stk))
        → length (top ∷ under ∷ stk) < 240
        → 5 ≤ room
        → callback lib realloc first (place base pre sync post room (top ∷ under ∷ stk) a)
          ≡ continue (
              place base pre sync (post ++ replicate 5 0) (room - 5)
                (new_item (length (framed_out pre post)) t ∷ grow_item type_array top ∷ under ∷ stk)
                (alloc_for a (length (top ∷ under ∷ stk)))))
      × ((post body : Bytes) (room n : ℕ) (top under : StackItem) (stk : List StackItem) (a : ℕ)
          → callback lib realloc last (
              place base pre sync (post ++ (replicate 5 0 ++ body)) room
                (record { ptr = length (framed_out pre post); count = n; type = t }
                  ∷ top
                  ∷ under
                  ∷ stk)
                a)
            ≡ continue (
                place base pre sync (post ++ ((mark ∷ be32 n) ++ body)) room (top ∷ under ∷ stk) a))

  pub Walks-container :
      (t : ItemType) (mark : ℕ) (first last : Event) (mid es : List Event) (post body : Bytes)
      (room n : ℕ) (top under : StackItem) (stk : List StackItem) (a : ℕ)
      → Closes t mark first last
      → IsAlloc a (suc (suc (length stk)))
      → suc (suc (length stk)) < 240
      → 5 + length body ≤ room
      → ((b : ℕ)
          → IsAlloc b (suc (suc (suc (length stk))))
          → Walks mid
              (last ∷ es)
              (post ++ replicate 5 0)
              body
              (room - 5)
              (new_item (length (framed_out pre post)) t)
              (record { ptr = length (framed_out pre post); count = n; type = t })
              (grow_item type_array top)
              (under ∷ stk)
              b)
      → Walks
          (first ∷ mid)
          es
          post
          ((mark ∷ be32 n) ++ body)
          room
          top
          (grow_item type_array top)
          under
          stk
          a
  Walks-container t mark first last mid es post body room n top under stk a c al deep h k =
      let b = alloc_for a (suc (suc (length stk))) in
      let w = k b (alloc_for-IsAlloc realloc a (suc (suc (length stk))) al deep) in
      let r : room - 5 - length body ≡ room - length ((mark ∷ be32 n) ++ body) = omega arith in
      (
        w.0,
        omega (arith, w.1),
        run-continue lib realloc first mid _ _ (c.0 post room top under stk a al deep (omega arith))
            ∙ w.2
            ∙ rw (append_assoc post (replicate 5 0) body) (
                run-continue lib realloc last es _ _ (
                  c.1 post body (room - 5 - length body) n (grow_item type_array top) under stk w.0)
                ∙ rw r),
      )
