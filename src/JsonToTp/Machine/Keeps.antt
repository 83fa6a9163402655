-- ===== src/JsonToTp/Machine/Keeps.antt =====
-- `transcode_first_enter` is set by no callback: the callbacks for scalars and keys, and the parts of
-- those for containers.
use nginx_upstream_module.Common.{
  [], ◌∷◌, Bool, ℕ, ◌≡◌, if◌then◌else◌, not, Bytes, ltb, refl, subst, bytes_eq, true, codes, false,
  ◌&&◌, Option, List, some, length, ◌==◌, none,
}
use nginx_upstream_module.JsonToTp.State.{
  stack_grow, Outcome, Ctx, ItemType, continue, cancel, is_params, max_batch_size, is_init, fault,
  type_array, type_map, wait_next, is_wait_next, is_id, is_method, stack_pop, StackItem,
}
use nginx_upstream_module.Tp.{
  TpLib, Attempt, Item, Tp, ok, tp_call_wof, nil, bool, str, tp_call_wof_add_params,
  tp_call_wof_add_func, null, double, assert_failed,
}
use nginx_upstream_module.JsonToTp.Callbacks.{
  yajl_null, yajl_boolean, yajl_double, yajl_integer, yajl_string, request_key, started_key,
  begin_request, yajl_map_key, put_item, wrote_or_overflow, integer_item, over_u32, begun,
}
use nginx_upstream_module.Common.Int.{ℤ, to_u32}
use nginx_upstream_module.JsonToTp.Containers.{
  close_map, close_array, yajl_end_array, close_map_in_params,
}

-- A context that is gone on with has the flag as it was.
pub data Keeps (b : Bool) : Outcome → Type 0 where
  keeps_continue : (s : Ctx) → s.transcode_first_enter ≡ b → Keeps b (continue s)
  keeps_cancel : (s : Ctx) → Keeps b (cancel s)
  keeps_fault : Keeps b fault

pub Keeps-if :
    {b : Bool} (t : Bool) (x y : Outcome) → Keeps b x → Keeps b y → Keeps b (if t then x else y)
Keeps-if true x y p q = p
Keeps-if false x y p q = q

pub wrote_or_overflow-Keeps :
    {b : Bool} (s : Ctx) (a : Attempt) (next : Tp → Outcome)
    → ((t : Tp) → Keeps b (next t))
    → Keeps b (wrote_or_overflow s a next)
wrote_or_overflow-Keeps s (ok t) next h = h t
wrote_or_overflow-Keeps s null next h = keeps_cancel _
wrote_or_overflow-Keeps s assert_failed next h = keeps_fault

pub stack_grow_keeps :
    (s : Ctx) (t : ItemType) → (stack_grow s t).transcode_first_enter ≡ s.transcode_first_enter
unfolding stack_grow
stack_grow_keeps s t = refl

module _ (lib : TpLib) where
  pub put_item-Keeps : (s : Ctx) (i : Item) → Keeps s.transcode_first_enter (put_item lib s i)
  put_item-Keeps s i =
      wrote_or_overflow-Keeps s (lib.tp_encode i s.tp) _ (λ t. keeps_continue _ refl)

  put_grown :
      (s : Ctx) (t : ItemType) (i : Item)
      → Keeps s.transcode_first_enter (put_item lib (stack_grow s t) i)
  put_grown s t i =
      subst (λ b. Keeps b (put_item lib (stack_grow s t) i)) (stack_grow_keeps s t)
        (put_item-Keeps (stack_grow s t) i)

  pub yajl_null-Keeps : (s : Ctx) → Keeps s.transcode_first_enter (yajl_null lib s)
  unfolding yajl_null
  yajl_null-Keeps s =
      Keeps-if (not (is_params s.stage)) _ _ (keeps_continue s refl) (put_grown s type_array nil)

  pub yajl_boolean-Keeps :
      (s : Ctx) (v : Bool) → Keeps s.transcode_first_enter (yajl_boolean lib s v)
  unfolding yajl_boolean
  yajl_boolean-Keeps s v =
      Keeps-if (not (is_params s.stage)) _ _ (keeps_continue s refl)
        (put_grown s type_array (bool v))

  pub yajl_double-Keeps : (s : Ctx) (v : ℕ) → Keeps s.transcode_first_enter (yajl_double lib s v)
  unfolding yajl_double
  yajl_double-Keeps s v =
      Keeps-if (not (is_params s.stage)) _ _ (keeps_continue s refl)
        (put_grown s type_array (double v))

  pub yajl_integer-Keeps : (s : Ctx) (v : ℤ) → Keeps s.transcode_first_enter (yajl_integer lib s v)
  unfolding yajl_integer
  yajl_integer-Keeps s v =
      Keeps-if (is_params s.stage) _ _ (put_grown s type_array (integer_item v)) (
        Keeps-if (is_id s.stage) _ _
          (Keeps-if (over_u32 v) _ _ (keeps_cancel _) (numbered (lib.tp_reqid s.tp (to_u32 v))))
          (keeps_continue s refl))
    where
      numbered :
          (a : Attempt)
          → Keeps s.transcode_first_enter (elim a [
            | ok t ↦ continue (record s {
              tp = t;
              been_stages = record (s.been_stages) { id_ = true };
              stage = wait_next;
            })
            | null ↦ fault
            | assert_failed ↦ fault
          ])
      numbered (ok t) = keeps_continue _ refl
      numbered null = keeps_fault
      numbered assert_failed = keeps_fault

  pub yajl_string-Keeps :
      (s : Ctx) (v : Bytes) → Keeps s.transcode_first_enter (yajl_string lib s v)
  unfolding yajl_string
  yajl_string-Keeps s v = Keeps-if (is_params s.stage) _ _ (put_grown s type_array (str v)) (
      Keeps-if (s.read_method && is_method s.stage) _ _
        (wrote_or_overflow-Keeps s (tp_call_wof_add_func lib s.tp v) _ (λ t. keeps_continue _ refl))
        (keeps_continue _ refl))

  pub request_key-Keeps :
      (s : Ctx) (key : Bytes) → Keeps s.transcode_first_enter (request_key lib s key)
  unfolding request_key
  request_key-Keeps s key =
      Keeps-if (bytes_eq key (codes "params")) _ _
        (wrote_or_overflow-Keeps s (tp_call_wof_add_params lib s.tp) _ (λ t. keeps_continue _ refl))
        (Keeps-if (bytes_eq key (codes "id")) _ _ (keeps_continue _ refl) (
          Keeps-if (s.read_method && bytes_eq key (codes "method")) _ _ (keeps_continue _ refl)
            (keeps_continue _ refl)))

  pub started_key-Keeps :
      (s : Ctx) (key : Bytes) → Keeps s.transcode_first_enter (started_key lib s key)
  unfolding started_key
  started_key-Keeps s key =
      Keeps-if (is_params s.stage) _ _ (put_grown s type_map (str key))
        (Keeps-if (is_wait_next s.stage) _ _ (request_key-Keeps s key) (keeps_continue _ refl))

  pub begin_request-Keeps :
      {b : Bool} (s : Ctx) (next : Ctx → Outcome)
      → ((s' : Ctx) → s'.transcode_first_enter ≡ s.transcode_first_enter → Keeps b (next s'))
      → Keeps b (begin_request lib s next)
  unfolding begin_request
  begin_request-Keeps s next h =
      Keeps-if (ltb max_batch_size s.tc.batch_size) _ _ (keeps_cancel _) (
        wrote_or_overflow-Keeps s (tp_call_wof lib s.tp) _ (λ t.
          Keeps-if (not s.read_method) _ _
            (wrote_or_overflow-Keeps (record s { tp = t }) (tp_call_wof_add_func lib t s.tc.method)
              _ (λ t'. h (begun lib (record s { tp = t' })) refl))
            (h (begun lib (record s { tp = t })) refl)))

  pub yajl_map_key-Keeps :
      (s : Ctx) (key : Bytes) → Keeps s.transcode_first_enter (yajl_map_key lib s key)
  unfolding yajl_map_key
  yajl_map_key-Keeps s key =
      Keeps-if (is_init s.stage) _ _
        (begin_request-Keeps s (λ s'. started_key lib s' key)
          (λ s' e. subst (λ b. Keeps b (started_key lib s' key)) e (started_key-Keeps s' key)))
        (started_key-Keeps s key)

-- A popped context is the one that was there, with less on its stack.
pub stack_pop_keeps : (s : Ctx) → (stack_pop s).1.transcode_first_enter ≡ s.transcode_first_enter
unfolding stack_pop
stack_pop_keeps s = go s.stack
  where
    go :
        (l : List StackItem)
        → (elim l as (λ x. Option StackItem × Ctx) [
          | [] ↦ (none, s)
          | item ∷ rest ↦ (some item, record s { stack = rest })
        ]).1.transcode_first_enter
          ≡ s.transcode_first_enter
    go [] = refl
    go (item ∷ rest) = refl

pub close_map-Keeps :
    (o : Option StackItem) (s : Ctx) → Keeps s.transcode_first_enter (close_map o s)
unfolding close_map
close_map-Keeps none s = keeps_cancel _
close_map-Keeps (some item) s =
    Keeps-if (length s.stack == 1) _ _ (keeps_cancel _) (keeps_continue _ refl)

pub close_map_in_params-Keeps :
    (o : Option StackItem) (s : Ctx) → Keeps s.transcode_first_enter (close_map_in_params o s)
close_map_in_params-Keeps o s =
    Keeps-if (not (is_params s.stage)) _ _ (keeps_continue _ refl) (close_map-Keeps o s)

pub close_array-Keeps :
    (o : Option StackItem) (s : Ctx) → Keeps s.transcode_first_enter (close_array o s)
unfolding close_array
close_array-Keeps none s = keeps_cancel _
close_array-Keeps (some item) s =
    Keeps-if (length s.stack == 1) _ _ (keeps_continue _ refl) (keeps_continue _ refl)

pub yajl_end_array-Keeps : (s : Ctx) → Keeps s.transcode_first_enter (yajl_end_array s)
unfolding yajl_end_array
yajl_end_array-Keeps s =
    let (item, s') = stack_pop s in
    subst (λ b. Keeps b (yajl_end_array s)) (stack_pop_keeps s)
      (Keeps-if (not (is_params (stack_pop s).1.stage)) _ _ (keeps_continue _ refl)
        (close_array-Keeps (stack_pop s).0 (stack_pop s).1))
