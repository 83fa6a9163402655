-- ===== src/JsonToTp/Alloc.antt =====
-- The stack's memory: how far `stack_push` gets with its uint8_t counters.
use nginx_upstream_module.Common.{
  ℕ, suc, ◌+◌, ◌*◌, ◌%◌, ◌≤◌, ◌<◌, ◌≡◌, arith, Bool, true, ◌∷◌, length, ◌==◌, if◌then◌else◌, ◌⊎◌,
  Bool-cases, inl, leb→le, leb, inr, leb_false→lt,
}
use nginx_upstream_module.JsonToTp.State.{
  ItemType, StackItem, Ctx, pushed, refused, wild, stack_push,
}

-- Memory for `a` items holds a stack of `size`, and was had in steps of 16.
pub record IsAlloc (a size : ℕ) : Type 0 where
  pub holds : size ≤ a
  pub bounded : a ≤ 240
  pub stepped : a % 16 ≡ 0

abbrev pub new_item : ℕ → ItemType → StackItem
new_item ptr mask = record { ptr = ptr; count = 0; type = mask }

abbrev pub alloc_for : ℕ → ℕ → ℕ
alloc_for a size = if a == size then a + 16 else a

module _ (realloc : ℕ → Bool) where
  -- Memory is given whenever some is asked for.
  abbrev pub Reallocates : Type 0
  Reallocates = (n : ℕ) → 0 < n → realloc n ≡ true

  pub stack_push-pushed :
      (s : Ctx) (ptr : ℕ) (mask : ItemType)
      → Reallocates
      → IsAlloc s.allocated (length s.stack)
      → length s.stack < 240
      → stack_push realloc s ptr mask
        ≡ pushed (record s {
          stack = new_item ptr mask ∷ s.stack;
          allocated = alloc_for s.allocated (length s.stack);
        })
  unfolding stack_push
  stack_push-pushed s ptr mask gives al h = ground (arith, gives (16 * ((s.allocated + 16) % 256)))

  pub alloc_for-IsAlloc :
      (a size : ℕ) → IsAlloc a size → size < 240 → IsAlloc (alloc_for a size) (suc size)
  alloc_for-IsAlloc a size al h = ground arith

  -- With 240 items, 240 + 16 is 0 in a uint8_t.
  stack_push-wraps :
      (s : Ctx) (ptr : ℕ) (mask : ItemType)
      → s.allocated ≡ 240
      → length s.stack ≡ 240
      → stack_push realloc s ptr mask
        ≡ (if realloc 0 then wild else refused (record s { allocated = 0 }))
  unfolding stack_push
  stack_push-wraps s ptr mask a h = ground arith

  abbrev pub pushed_item : Ctx → ℕ → ItemType → Ctx
  pushed_item s ptr mask = record s {
    stack = new_item ptr mask ∷ s.stack;
    allocated = alloc_for s.allocated (length s.stack);
  }

  -- Where memory is given whenever some is asked for and the memory holds the stack: below 240
  -- items a push puts the item on top, and the memory still holds the stack; with 240 items it asks
  -- for no memory at all, its uint8_t counter having come around to 0, and so it fails, or writes
  -- where it has no memory.
  pub stack_push-IsAlloc :
      (s : Ctx) (ptr : ℕ) (mask : ItemType)
      → Reallocates
      → IsAlloc s.allocated (length s.stack)
      → ((stack_push realloc s ptr mask ≡ pushed (pushed_item s ptr mask))
          × IsAlloc (pushed_item s ptr mask).allocated (length (pushed_item s ptr mask).stack))
        ⊎ ((length s.stack ≡ 240)
            × (stack_push realloc s ptr mask
                ≡ (if realloc 0 then wild else refused (record s { allocated = 0 }))))
  stack_push-IsAlloc s ptr mask gives al = elim (Bool-cases (leb 240 (length s.stack))) [
    | inl e ↦
        let h : 240 ≤ length s.stack = leb→le 240 (length s.stack) e in
        inr (
          omega (arith, al.holds, al.bounded),
          stack_push-wraps s ptr mask (omega (arith, al.holds, al.bounded))
              (omega (arith, al.holds, al.bounded)),
        )
    | inr e ↦
        let h : length s.stack < 240 = leb_false→lt 240 (length s.stack) e in
        inl (
          stack_push-pushed s ptr mask gives al h,
          alloc_for-IsAlloc s.allocated (length s.stack) al h,
        )
  ]
