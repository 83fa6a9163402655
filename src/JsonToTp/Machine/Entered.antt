-- ===== src/JsonToTp/Machine/Entered.antt =====
-- `transcode_first_enter` is set by no callback: the callbacks for containers, and whole runs.
use nginx_upstream_module.Common.{
  [], ◌∷◌, Bool, ℕ, ◌≡◌, if◌then◌else◌, not, ltb, refl, subst, true, false, Option, List, some,
  length, ◌==◌, none, replicate, ◌*◌, ◌+◌, ◌%◌, ◌^◌,
}
use nginx_upstream_module.JsonToTp.State.{
  stack_grow, Outcome, Ctx, ItemType, continue, cancel, is_params, is_init, fault, type_array,
  type_map, stack_pop, stack_push, StackItem, refused, say_error, stack_overflow, pushed, wild,
  Pushed, store_item, max_stack_size, stack_item_size, has_data, init, no_stages,
}
use nginx_upstream_module.Tp.{
  TpLib, Attempt, Tp, ok, tp_call_wof_add_params, null, assert_failed, array,
}
use nginx_upstream_module.JsonToTp.Callbacks.{wrote_or_overflow}
use nginx_upstream_module.JsonToTp.Containers.{
  close_map_in_params, skip_header, open_container, yajl_start_map, yajl_start_array,
  add_empty_params, yajl_end_map, bind_data, end_request,
}
use nginx_upstream_module.JsonToTp.Machine.{
  callback, run, Event, boolean, integer, string, map_key, start_map, end_map, start_array,
  end_array,
}
use nginx_upstream_module.JsonToTp.Machine.Keeps.{
  Keeps, keeps_cancel, Keeps-if, keeps_continue, keeps_fault, close_map_in_params-Keeps,
  yajl_null-Keeps, wrote_or_overflow-Keeps, stack_pop_keeps, yajl_boolean-Keeps, yajl_integer-Keeps,
  yajl_double-Keeps, yajl_string-Keeps, yajl_map_key-Keeps, yajl_end_array-Keeps,
}

-- The same of a push.
data Pushes (b : Bool) : Pushed → Type 0 where
  pushes_pushed : (s : Ctx) → s.transcode_first_enter ≡ b → Pushes b (pushed s)
  pushes_refused : (s : Ctx) → Pushes b (refused s)
  pushes_wild : Pushes b wild

Pushes-if :
    {b : Bool} (t : Bool) (x y : Pushed) → Pushes b x → Pushes b y → Pushes b (if t then x else y)
Pushes-if true x y p q = p
Pushes-if false x y p q = q

store_item-Pushes :
    (s : Ctx) (ptr : ℕ) (t : ItemType) → Pushes s.transcode_first_enter (store_item s ptr t)
store_item-Pushes s ptr t =
    Pushes-if (ltb (length s.stack) s.allocated) _ _ (pushes_pushed _ refl) pushes_wild

module _ (lib : TpLib) (realloc : ℕ → Bool) where
  stack_push-Pushes :
      (s : Ctx) (ptr : ℕ) (t : ItemType)
      → Pushes s.transcode_first_enter (stack_push realloc s ptr t)
  unfolding stack_push
  stack_push-Pushes s ptr t =
      Pushes-if (ltb (length s.stack) max_stack_size) _ _
        (Pushes-if (s.allocated == length s.stack) _ _
          (Pushes-if (realloc (stack_item_size * ((s.allocated + 16) % 2 ^ 8))) _ _
            (store_item-Pushes (record s { allocated = (s.allocated + 16) % 2 ^ 8 }) ptr t)
            (pushes_refused _))
          (store_item-Pushes s ptr t))
        (pushes_refused s)

  abbrev after_push : Pushed → (Ctx → Outcome) → Outcome
  after_push p next = elim p [
    | refused s' ↦ cancel (say_error s' 32603 stack_overflow)
    | wild ↦ fault
    | pushed s' ↦ next s'
  ]

  after_push-Keeps :
      {b : Bool} (p : Pushed) (next : Ctx → Outcome)
      → Pushes b p
      → ((s : Ctx) → s.transcode_first_enter ≡ b → Keeps b (next s))
      → Keeps b (after_push p next)
  after_push-Keeps (pushed s) next (pushes_pushed _ e) h = h s e
  after_push-Keeps (refused s) next q h = keeps_cancel _
  after_push-Keeps wild next q h = keeps_fault

  skip_header-Keeps :
      {b : Bool} (s : Ctx) (next : Tp → Outcome)
      → ((t : Tp) → Keeps b (next t))
      → Keeps b (skip_header lib realloc s next)
  unfolding skip_header
  skip_header-Keeps s next h =
      Keeps-if (ltb s.tp.room 5) _ _ (keeps_cancel _)
        (wrote_or_overflow-Keeps s (lib.tp_add s.tp (replicate 5 0)) next h)

  open_container-Keeps :
      (s : Ctx) (t : ItemType) (next : Ctx → Outcome)
      → ((s' : Ctx)
          → s'.transcode_first_enter ≡ s.transcode_first_enter
          → Keeps s.transcode_first_enter (next s'))
      → Keeps s.transcode_first_enter (open_container lib realloc s t next)
  unfolding open_container stack_grow
  open_container-Keeps s t next h =
      after_push-Keeps (stack_push realloc (stack_grow s type_array) (length s.tp.out) t) _
        (stack_push-Pushes (stack_grow s type_array) (length s.tp.out) t)
        (λ s' e.
          Keeps-if (not (is_params s'.stage)) _ _ (keeps_continue s' e)
            (skip_header-Keeps s' _ (λ u. h (record s' { tp = u }) e)))

  yajl_start_map-Keeps : (s : Ctx) → Keeps s.transcode_first_enter (yajl_start_map lib realloc s)
  unfolding yajl_start_map
  yajl_start_map-Keeps s = open_container-Keeps s type_map continue keeps_continue

  yajl_start_array-Keeps :
      (s : Ctx) → Keeps s.transcode_first_enter (yajl_start_array lib realloc s)
  unfolding yajl_start_array
  yajl_start_array-Keeps s = Keeps-if (is_init s.stage) _ _ (keeps_continue _ refl) (
      open_container-Keeps s type_array _ (λ s' e.
        Keeps-if (length s'.stack == 2) _ _
          (wrote_or_overflow-Keeps s' (bind_data lib realloc s') _ (λ t. keeps_continue _ e))
          (keeps_continue s' e)))

  add_empty_params-Keeps :
      {b : Bool} (s : Ctx) (next : Tp → Outcome)
      → ((t : Tp) → Keeps b (next t))
      → Keeps b (add_empty_params lib realloc s next)
  unfolding add_empty_params
  add_empty_params-Keeps {b} s next h =
      wrote_or_overflow-Keeps s (tp_call_wof_add_params lib s.tp) _ (λ t.
        Keeps-if (has_data s.tc) _ _ (bound t (lib.tp_encode (array 1) t))
          (unbound t (lib.tp_encode (array 0) t)))
    where
      bound :
          (t : Tp) (a : Attempt)
          → Keeps b (elim a [
            | assert_failed ↦ fault
            | ok t' ↦ wrote_or_overflow s (bind_data lib realloc (record s { tp = t' })) next
            | null ↦ wrote_or_overflow s (bind_data lib realloc (record s { tp = t })) next
          ])
      bound t assert_failed = keeps_fault
      bound t (ok t') =
          wrote_or_overflow-Keeps s (bind_data lib realloc (record s { tp = t' })) next h
      bound t null = wrote_or_overflow-Keeps s (bind_data lib realloc (record s { tp = t })) next h

      unbound :
          (t : Tp) (a : Attempt)
          → Keeps b (elim a [ assert_failed ↦ fault | ok t' ↦ next t' | null ↦ next t ])
      unbound t assert_failed = keeps_fault
      unbound t (ok t') = h t'
      unbound t null = h t

  yajl_end_map-Keeps : (s : Ctx) → Keeps s.transcode_first_enter (yajl_end_map lib realloc s)
  unfolding yajl_end_map end_request
  yajl_end_map-Keeps s =
      subst (λ b. Keeps b (yajl_end_map lib realloc s)) (stack_pop_keeps s)
        (go (stack_pop s).0 (stack_pop s).1)
    where
      go :
          (o : Option StackItem) (s' : Ctx)
          → Keeps s'.transcode_first_enter (elim o [
            | none ↦ close_map_in_params none s'
            | some it ↦
                if length s'.stack == 0
                then end_request lib realloc s' (close_map_in_params (some it))
                else close_map_in_params (some it) s'
          ])
      go none s' = close_map_in_params-Keeps none s'
      go (some it) s' =
          Keeps-if (length s'.stack == 0) _ _
            (Keeps-if (not s'.been_stages.params_) _ _
              (add_empty_params-Keeps s' _ (λ t.
                close_map_in_params-Keeps (some it)
                  (record s' { tp = t; stage = init; been_stages = no_stages })))
              (close_map_in_params-Keeps (some it)
                (record s' { tp = s'.tp; stage = init; been_stages = no_stages })))
            (close_map_in_params-Keeps (some it) s')

  -- No callback changes the flag.
  pub callback-Keeps :
      (e : Event) (s : Ctx) → Keeps s.transcode_first_enter (callback lib realloc e s)
  unfolding callback
  callback-Keeps Event.null s = yajl_null-Keeps lib s
  callback-Keeps (boolean v) s = yajl_boolean-Keeps lib s v
  callback-Keeps (integer v) s = yajl_integer-Keeps lib s v
  callback-Keeps (Event.double v) s = yajl_double-Keeps lib s v
  callback-Keeps (string v) s = yajl_string-Keeps lib s v
  callback-Keeps (map_key key) s = yajl_map_key-Keeps lib s key
  callback-Keeps start_map s = yajl_start_map-Keeps s
  callback-Keeps end_map s = yajl_end_map-Keeps s
  callback-Keeps start_array s = yajl_start_array-Keeps s
  callback-Keeps end_array s = yajl_end_array-Keeps s

  pub run-Keeps : (es : List Event) (s : Ctx) → Keeps s.transcode_first_enter (run lib realloc es s)
  unfolding run
  run-Keeps [] s = keeps_continue s refl
  run-Keeps (e ∷ es) s = go (callback lib realloc e s) (λ s'. run-Keeps es s') (callback-Keeps e s)
    where
      go :
          (o : Outcome)
          → ((s' : Ctx) → Keeps s'.transcode_first_enter (run lib realloc es s'))
          → Keeps s.transcode_first_enter o
          → Keeps s.transcode_first_enter (elim o [
            | continue s' ↦ run lib realloc es s'
            | cancel s' ↦ cancel s'
            | fault ↦ fault
          ])
      go (continue s') rest (keeps_continue _ e) =
          subst (λ b. Keeps b (run lib realloc es s')) e (rest s')
      go (cancel s') rest k = k
      go fault rest k = k
