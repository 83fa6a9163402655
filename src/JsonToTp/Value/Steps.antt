-- ===== src/JsonToTp/Value/Steps.antt =====
-- One callback within the parameters of a request.
use nginx_upstream_module.Common.{
  ℕ, zero, suc, ◌+◌, ◌-◌, ◌%◌, ◌^◌, ◌≤◌, ◌<◌, ◌≡◌, refl, ap, ◌∙◌, arith, Bool, false, List, ◌∷◌,
  ◌++◌, Bytes, length, replicate, ◌==◌, some, [],
}
use nginx_upstream_module.Tp.{TpLib, Item, be32, poke, Tp}
use nginx_upstream_module.Tp.Frame.{
  framed, framed_out, length-framed_out, accepted-frame, poke-framed, tp_encode-framed,
}
use nginx_upstream_module.JsonToTp.State.{
  params, ItemType, type_map, type_array, StackItem, Ctx, continue, grow_item, grow_top, stack_grow,
  stack_pop, Outcome,
}
use nginx_upstream_module.JsonToTp.Callbacks.{put_item}
use nginx_upstream_module.JsonToTp.Containers.{
  yajl_start_map, yajl_start_array, yajl_end_map, yajl_end_array, open_container, skip_header,
  close_map, close_array,
}
use nginx_upstream_module.JsonToTp.Machine.{start_map, end_map, start_array, end_array, callback}
use nginx_upstream_module.JsonToTp.Alloc.{
  IsAlloc, Reallocates, new_item, alloc_for, stack_push-pushed,
}

-- A number of `++count`s.
abbrev pub grow_by : ℕ → ItemType → StackItem → StackItem
grow_by zero t i = i
grow_by (suc n) t i = grow_by n t (grow_item t i)

pub grow_by_lem :
    (n : ℕ) (t : ItemType) (i : StackItem)
    → i.type ≡ t
    → i.count < 2 ^ 32
    → grow_by n t i ≡ record i { count = (i.count + n) % 2 ^ 32 }
unfolding grow_item
grow_by_lem zero t i e h = ground arith
grow_by_lem (suc n) type_map i e h =
    grow_by_lem n type_map (grow_item type_map i) (ground arith) (ground arith) ∙ ground arith
grow_by_lem (suc n) type_array i e h =
    grow_by_lem n type_array (grow_item type_array i) (ground arith) (ground arith) ∙ ground arith

length-grow_top : (t : ItemType) (stk : List StackItem) → length (grow_top t stk) ≡ length stk
unfolding grow_top
length-grow_top t [] = refl
length-grow_top t (i ∷ stk) = refl

-- The tests on `size` come out false below the first level of the parameters.
ne_two : (n : ℕ) → (suc (suc (suc n)) == 2) ≡ false
ne_two n = ground arith

ne_one : (n : ℕ) → (suc (suc n) == 1) ≡ false
ne_one n = ground arith

ne_zero : (n : ℕ) → (suc (suc n) == 0) ≡ false
ne_zero n = ground arith

-- The header is filled in where it was left out.
pub filled :
    (pre post body : Bytes) (mark n : ℕ)
    → poke
        (framed_out pre (post ++ (replicate 5 0 ++ body)))
        (length (framed_out pre post))
        (mark ∷ be32 n)
      ≡ framed_out pre (post ++ ((mark ∷ be32 n) ++ body))
filled pre post body mark n =
    rw (length-framed_out pre post) (poke-framed pre post (replicate 5 0) body (mark ∷ be32 n) refl)

-- The item of a container whose header is to be filled.
abbrev pub filling : Bytes → Bytes → ℕ → ItemType → StackItem
filling pre post n t = record { ptr = length (framed_out pre post); count = n; type = t }

module _ (base : Ctx) (pre : Bytes) (sync : ℕ) where
  -- The context with this much of the request written, and this stack.
  abbrev pub place : Bytes → ℕ → List StackItem → ℕ → Ctx
  place post room stk a = record base {
    stack = stk;
    allocated = a;
    tp = framed pre post room sync;
    stage = params;
  }

  -- The same, but for the bytes written.
  abbrev pub with_out : ℕ → List StackItem → ℕ → Bytes → Ctx
  with_out room stk a out = record base {
    stack = stk;
    allocated = a;
    tp = record { out = out; room = room; size = some (length pre); sync = some sync };
    stage = params;
  }

module _ (lib : TpLib) (base : Ctx) (pre : Bytes) (sync : ℕ) where
  pub put_item-place :
      (i : Item) (post : Bytes) (room : ℕ) (stk : List StackItem) (a : ℕ)
      → length (lib.item_bytes i) ≤ room
      → put_item lib (place base pre sync post room stk a) i
        ≡ continue (
            place base pre sync (post ++ lib.item_bytes i) (room - length (lib.item_bytes i)) stk a)
  put_item-place i post room stk a h = rw (tp_encode-framed lib i pre post room sync h)

  module _ (realloc : ℕ → Bool) (gives : Reallocates realloc) where
    skip_header-place :
        (post : Bytes) (room : ℕ) (stk : List StackItem) (a : ℕ) (then_ : Tp → Outcome)
        → 5 ≤ room
        → skip_header lib realloc (place base pre sync post room stk a) then_
          ≡ then_ (framed pre (post ++ replicate 5 0) (room - 5) sync)
    unfolding skip_header
    skip_header-place post room stk a then_ h = ground (
      arith,
      lib.add_law (framed pre post room sync) (replicate 5 0),
      accepted-frame pre post (replicate 5 0) room (some sync),
    )

    pub open_container-place :
        (t : ItemType) (post : Bytes) (room : ℕ) (stk : List StackItem) (a : ℕ)
        (then_ : Ctx → Outcome)
        → IsAlloc a (length stk)
        → length stk < 240
        → 5 ≤ room
        → open_container lib realloc (place base pre sync post room stk a) t then_
          ≡ then_ (
              place base pre sync
                (post ++ replicate 5 0)
                (room - 5)
                (new_item (length (framed_out pre post)) t ∷ grow_top type_array stk)
                (alloc_for a (length stk)))
    unfolding open_container stack_grow
    open_container-place t post room stk a then_ al deep h =
        let grown = grow_top type_array stk in
        let n = length-grow_top type_array stk in
        rw
          (
            stack_push-pushed realloc (place base pre sync post room grown a)
                (length (framed_out pre post)) t gives (rw n al) (rw n deep),
            open_container,
          )
          (rw n (skip_header-place post room _ _ _ h))

    pub start_array-place :
        (post : Bytes) (room : ℕ) (top under : StackItem) (stk : List StackItem) (a : ℕ)
        → IsAlloc a (length (top ∷ under ∷ stk))
        → length (top ∷ under ∷ stk) < 240
        → 5 ≤ room
        → callback lib realloc start_array (place base pre sync post room (top ∷ under ∷ stk) a)
          ≡ continue (
              place base pre sync
                (post ++ replicate 5 0)
                (room - 5)
                (new_item (length (framed_out pre post)) type_array
                  ∷ grow_item type_array top
                  ∷ under
                  ∷ stk)
                (alloc_for a (length (top ∷ under ∷ stk))))
    unfolding callback yajl_start_array grow_top
    start_array-place post room top under stk a al deep h =
        open_container-place type_array post room (top ∷ under ∷ stk) a _ al deep h
        ∙ rw (ne_two (length stk))

    pub start_map-place :
        (post : Bytes) (room : ℕ) (top under : StackItem) (stk : List StackItem) (a : ℕ)
        → IsAlloc a (length (top ∷ under ∷ stk))
        → length (top ∷ under ∷ stk) < 240
        → 5 ≤ room
        → callback lib realloc start_map (place base pre sync post room (top ∷ under ∷ stk) a)
          ≡ continue (
              place base pre sync
                (post ++ replicate 5 0)
                (room - 5)
                (new_item (length (framed_out pre post)) type_map
                  ∷ grow_item type_array top
                  ∷ under
                  ∷ stk)
                (alloc_for a (length (top ∷ under ∷ stk))))
    unfolding callback yajl_start_map grow_top
    start_map-place post room top under stk a al deep h =
        open_container-place type_map post room (top ∷ under ∷ stk) a _ al deep h

    pub end_array-place :
        (post body : Bytes) (room n : ℕ) (top under : StackItem) (stk : List StackItem) (a : ℕ)
        → callback lib realloc end_array (
            place base pre sync
              (post ++ (replicate 5 0 ++ body))
              room
              (filling pre post n type_array ∷ top ∷ under ∷ stk)
              a)
          ≡ continue
              (place base pre sync (post ++ ((0xdd ∷ be32 n) ++ body)) room (top ∷ under ∷ stk) a)
    unfolding callback yajl_end_array close_array stack_pop
    end_array-place post body room n top under stk a = rw (ne_one (length stk)) (
        ap (λ out. continue (with_out base pre sync room (top ∷ under ∷ stk) a out))
          (filled pre post body 0xdd n))

    pub end_map-place :
        (post body : Bytes) (room n : ℕ) (top under : StackItem) (stk : List StackItem) (a : ℕ)
        → callback lib realloc end_map (
            place base pre sync
              (post ++ (replicate 5 0 ++ body))
              room
              (filling pre post n type_map ∷ top ∷ under ∷ stk)
              a)
          ≡ continue
              (place base pre sync (post ++ ((0xdf ∷ be32 n) ++ body)) room (top ∷ under ∷ stk) a)
    unfolding callback yajl_end_map close_map stack_pop
    end_map-place post body room n top under stk a =
        rw (ne_zero (length stk), ne_one (length stk))
          (ap (λ out. continue (with_out base pre sync room (top ∷ under ∷ stk) a out))
            (filled pre post body 0xdf n))
