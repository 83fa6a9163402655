-- ===== src/JsonToTp/State.antt =====
-- The codec's context (yajl_ctx_t, stack_item_t, enum stage), its error reports and its stack.
use nginx_upstream_module.Common.{
  ℕ, ◌+◌, ◌*◌, ◌%◌, ◌^◌, Bool, true, false, not, Option, none, some, List, [], ◌∷◌, ltb, ◌==◌,
  if◌then◌else◌, Bytes, length,
}
use nginx_upstream_module.Common.Int.{ℤ, minus}
use nginx_upstream_module.Tp.{Tp}

pub data Stage : Type 0 where
  init wait_next params id method : Stage

-- TYPE_MAP and TYPE_ARRAY.
pub data ItemType : Type 0 where
  type_map type_array : ItemType

-- `ptr` is an offset into the output; `count` is a uint32_t.
pub record StackItem : Type 0 where
  pub ptr : ℕ
  pub count : ℕ
  pub type : ItemType

-- The texts that the codec reports.
pub data Message : Type 0 where
  output_overflow stack_overflow wrong_params invalid_json id_too_large batch_too_large : Message
  parser_error : Bytes → Message

-- tp_transcode_t: the part of it that outlives the codec. `[]` stands for NULL and for no bytes in
-- `method` and `data`, which the code treats alike.
pub record Transcode : Type 0 where
  pub errmsg : Option Message
  pub errcode : ℤ
  pub method : Bytes
  pub batch_size : ℕ
  pub data_ : Bytes

-- The bits of `been_stages`.
pub record BeenStages : Type 0 where
  pub params_ : Bool
  pub id_ : Bool
  pub method_ : Bool

-- yajl_ctx_t. The stack's top comes first: `size` is its length.
pub record Ctx : Type 0 where
  pub stack : List StackItem
  pub allocated : ℕ
  pub tp : Tp
  pub stage : Stage
  pub batch_mode_on : Bool
  pub been_stages : BeenStages
  pub read_method : Bool
  pub transcode_first_enter : Bool
  pub tc : Transcode

-- A callback returns 1 or 0, or the process dies on a failed assertion or a wild write.
pub data Outcome : Type 0 where
  continue : Ctx → Outcome
  cancel : Ctx → Outcome
  fault : Outcome

-- MAX_STACK_SIZE, 254 - 1, and MAX_BATCH_SIZE.
abbrev pub max_stack_size : ℕ
max_stack_size = 253

abbrev pub max_batch_size : ℕ
max_batch_size = 16384

abbrev pub stack_item_size : ℕ
stack_item_size = 16

abbrev pub no_stages : BeenStages
no_stages = record { params_ = false; id_ = false; method_ = false }

-- `say_error_`: the message replaces an earlier one.
abbrev pub say_error : Ctx → ℕ → Message → Ctx
say_error s code e = record s { tc = record (s.tc) { errmsg = some e; errcode = minus code } }

-- `say_overflow_r_2`, `say_wrong_params` and `say_invalid_json`.
abbrev pub say_overflow : Ctx → Outcome
say_overflow s = cancel (say_error s 32603 output_overflow)

abbrev pub say_wrong_params : Ctx → Ctx
say_wrong_params s = say_error s 32700 wrong_params

abbrev pub say_invalid_json : Ctx → Ctx
say_invalid_json s = say_error s 32700 invalid_json

abbrev pub is_params : Stage → Bool
is_params params = true
is_params _ = false

abbrev pub is_init : Stage → Bool
is_init init = true
is_init _ = false

abbrev pub is_id : Stage → Bool
is_id id = true
is_id _ = false

abbrev pub is_method : Stage → Bool
is_method method = true
is_method _ = false

abbrev pub is_wait_next : Stage → Bool
is_wait_next wait_next = true
is_wait_next _ = false

abbrev pub same_type : ItemType → ItemType → Bool
same_type type_map type_map = true
same_type type_array type_array = true
same_type _ _ = false

-- `tc->data.pos && tc->data.len`
abbrev pub has_data : Transcode → Bool
has_data tc = not (length tc.data_ == 0)

-- `++item->count` on the top item, if it has the type.
unfoldable pub grow_item : ItemType → StackItem → StackItem
grow_item cond item =
    if same_type item.type cond then record item { count = (item.count + 1) % 2 ^ 32 } else item

unfoldable pub grow_top : ItemType → List StackItem → List StackItem
grow_top cond [] = []
grow_top cond (item ∷ rest) = grow_item cond item ∷ rest

unfoldable pub stack_grow : Ctx → ItemType → Ctx
unfolding grow_top
stack_grow s cond = record s { stack = grow_top cond s.stack }

-- The item that `stack_pop` returns, and the stack without it.
unfoldable pub stack_pop : Ctx → Option StackItem × Ctx
stack_pop s = elim s.stack [ [] ↦ (none, s) | item ∷ rest ↦ (some item, record s { stack = rest }) ]

-- `stack_push` returns true or false, or writes behind its memory.
pub data Pushed : Type 0 where
  pushed : Ctx → Pushed
  refused : Ctx → Pushed
  wild : Pushed

-- `s->stack[s->size] = …`, in memory for `allocated` items.
abbrev pub store_item : Ctx → ℕ → ItemType → Pushed
store_item s ptr mask =
    if ltb (length s.stack) s.allocated
    then pushed (record s { stack = record { ptr = ptr; count = 0; type = mask } ∷ s.stack })
    else wild

module _ (realloc : ℕ → Bool) where
  -- `size` and `allocated` are of type uint8_t; `realloc n` says whether memory for n bytes is given.
  unfoldable pub stack_push : Ctx → ℕ → ItemType → Pushed
  stack_push s ptr mask =
      if ltb (length s.stack) max_stack_size
      then (if s.allocated == length s.stack
          then (let allocated' = (s.allocated + 16) % 2 ^ 8 in
              let s' = record s { allocated = allocated' } in
              if realloc (stack_item_size * allocated') then store_item s' ptr mask else refused s')
          else store_item s ptr mask)
      else refused s
