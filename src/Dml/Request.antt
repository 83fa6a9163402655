-- ===== src/Dml/Request.antt =====
-- Requests of each type, as sequences of calls.
use nginx_upstream_module.Common.{
  true, false, [], ◌∷◌, List, Bool, Option, not, ◌%◌, All, ◌^◌, ◌≡◌, ap, arith, ◌++◌, ◌∙◌, refl,
}
use mathlib.Core.List.{map}
use nginx_upstream_module.Dml.State.{
  ReqType, FormatValue, Prepared, tp_update, tp_upsert, other_type,
}
use nginx_upstream_module.Dml.Bind.{
  Readers, TpCall, updatebegin, bind_slot, and_then, bind_value, upsertbegin_add_ops, begin,
  bind_rest, issued, ngx_ok, issue,
}
use nginx_upstream_module.Dml.Binding.{
  Plain, Operation, plain_slot, operation_slot, IsPlain, IsOperation, plain_calls, operation_calls,
  begin_off, bind_rest_plain, begin_on, begin_again, bind_rest_operation, one_run,
}
use nginx_upstream_module.Dml.Calls.{
  Binds, BindsOne, Binds-nil, Binds-cons, runs, and_then_assoc, and_then_cong, runs-append,
}

-- Whether a value begins with an operation in a request of a type.
abbrev pub begins : ReqType → FormatValue → Bool
begins tp_update v = not v.update_key
begins tp_upsert v = v.upsert_op
begins other_type v = false

-- What announces the operations.
abbrev pub announced : ReqType → Prepared → List TpCall
announced tp_update p = updatebegin (p.tuples_count % 2 ^ 32) ∷ []
announced tp_upsert p = upsertbegin_add_ops (p.upsert_tuples_count % 2 ^ 32) ∷ []
announced other_type p = []

-- The values without operations and those with them, for a request of a type.
abbrev pub ArePlain : ReqType → Readers → List Plain → Type 0
ArePlain type c xs = All (λ x. (begins type x.slot ≡ false) × IsPlain c x) xs

abbrev pub AreOperations : ReqType → Readers → List Operation → Type 0
AreOperations type c xs = All (λ x. (begins type x.slot ≡ true) × IsOperation c x) xs

module _ {A : Type 0} (c : Readers) (call : TpCall → A → Option A) (error_memory : Bool) where
  plain-BindsOne :
      (type : ReqType) (p : Prepared) (x : Plain)
      → begins type x.slot ≡ false
      → IsPlain c x
      → BindsOne c call error_memory type p false (plain_slot x) (x.call_of ∷ []) false
  unfolding bind_slot bind_value and_then
  plain-BindsOne tp_update p x h e tp =
      ap
        (λ r.
          and_then r (λ s. bind_rest c call error_memory (s.1) (plain_slot x) x.text (s.1) (s.0)))
        (begin_off c call error_memory (not x.slot.update_key)
          (updatebegin (p.tuples_count % 2 ^ 32)) (tp, false) h)
      ∙ bind_rest_plain c call error_memory false false x tp refl e
  plain-BindsOne tp_upsert p x h e tp =
      ap
        (λ r.
          and_then r
            (λ s. bind_rest c call error_memory x.slot.upsert_op (plain_slot x) x.text (s.1) (s.0)))
        (begin_off c call error_memory x.slot.upsert_op
          (upsertbegin_add_ops (p.upsert_tuples_count % 2 ^ 32)) (tp, false) h)
      ∙ bind_rest_plain c call error_memory x.slot.upsert_op false x tp h e
  plain-BindsOne other_type p x h e tp = bind_rest_plain c call error_memory false false x tp refl e

  pub plain-Binds :
      (type : ReqType) (p : Prepared) (xs : List Plain)
      → ArePlain type c xs
      → Binds c call error_memory type p false (map plain_slot xs) (plain_calls xs) false
  plain-Binds type p [] h = Binds-nil c call error_memory type p false
  plain-Binds type p (x ∷ xs) (h, hs) =
      Binds-cons c call error_memory type p false false false (plain_slot x) (map plain_slot xs)
        (x.call_of ∷ []) (plain_calls xs) (plain-BindsOne type p x (h.0) (h.1))
        (plain-Binds type p xs hs)

  -- The first operation, behind the call that announces the operations.
  first_operation :
      (starts : Bool) (k : TpCall) (wanted : Bool → Bool) (x : Operation) (tp : A)
      → starts ≡ true
      → wanted true ≡ true
      → IsOperation c x
      → and_then
          (begin c call error_memory starts k (tp, false))
          (λ s. bind_rest c call error_memory (wanted (s.1)) (operation_slot x) x.text (s.1) (s.0))
        ≡ and_then
            (issued c call error_memory (runs call (k ∷ x.op_call ∷ x.call_of ∷ []) tp))
            (λ t. ngx_ok (t, true))
  unfolding and_then
  first_operation starts k wanted x tp h w e = rw (begin_on c call error_memory starts k tp h) (
      and_then_assoc (issue c call error_memory k tp) _ _
      ∙ and_then_cong (issue c call error_memory k tp) _ _
          (λ tp'. bind_rest_operation c call error_memory (wanted true) true x tp' w e)
      ∙ one_run c call error_memory k tp _
      ∙ runs-append c call error_memory (k ∷ []) (x.op_call ∷ x.call_of ∷ []) tp
          (λ t. ngx_ok (t, true)))

  next_operation :
      (starts : Bool) (k : TpCall) (wanted : Bool → Bool) (x : Operation) (tp : A)
      → wanted true ≡ true
      → IsOperation c x
      → and_then
          (begin c call error_memory starts k (tp, true))
          (λ s. bind_rest c call error_memory (wanted (s.1)) (operation_slot x) x.text (s.1) (s.0))
        ≡ and_then
            (issued c call error_memory (runs call (x.op_call ∷ x.call_of ∷ []) tp))
            (λ t. ngx_ok (t, true))
  unfolding and_then
  next_operation starts k wanted x tp w e =
      rw (begin_again c call error_memory starts k tp)
        (bind_rest_operation c call error_memory (wanted true) true x tp w e)

  pub first-BindsOne :
      (type : ReqType) (p : Prepared) (x : Operation)
      → begins type x.slot ≡ true
      → IsOperation c x
      → BindsOne c call error_memory type p false
          (operation_slot x)
          (announced type p ++ (x.op_call ∷ x.call_of ∷ []))
          true
  unfolding bind_slot bind_value
  first-BindsOne tp_update p x h e tp =
      first_operation (not x.slot.update_key) (updatebegin (p.tuples_count % 2 ^ 32)) (λ s. s) x tp
        h refl e
  first-BindsOne tp_upsert p x h e tp =
      first_operation x.slot.upsert_op (upsertbegin_add_ops (p.upsert_tuples_count % 2 ^ 32))
        (λ s. x.slot.upsert_op) x tp h h e
  first-BindsOne other_type p x h e tp = ground arith

  next-BindsOne :
      (type : ReqType) (p : Prepared) (x : Operation)
      → begins type x.slot ≡ true
      → IsOperation c x
      → BindsOne c call error_memory type p true
          (operation_slot x)
          (x.op_call ∷ x.call_of ∷ [])
          true
  unfolding bind_slot bind_value
  next-BindsOne tp_update p x h e tp =
      next_operation (not x.slot.update_key) (updatebegin (p.tuples_count % 2 ^ 32)) (λ s. s) x tp
        refl e
  next-BindsOne tp_upsert p x h e tp =
      next_operation x.slot.upsert_op (upsertbegin_add_ops (p.upsert_tuples_count % 2 ^ 32))
        (λ s. x.slot.upsert_op) x tp h e
  next-BindsOne other_type p x h e tp = ground arith

  pub operations-Binds :
      (type : ReqType) (p : Prepared) (xs : List Operation)
      → AreOperations type c xs
      → Binds c call error_memory type p true (map operation_slot xs) (operation_calls xs) true
  operations-Binds type p [] h = Binds-nil c call error_memory type p true
  operations-Binds type p (x ∷ xs) (h, hs) =
      Binds-cons c call error_memory type p true true true (operation_slot x)
        (map operation_slot xs) (x.op_call ∷ x.call_of ∷ []) (operation_calls xs)
        (next-BindsOne type p x (h.0) (h.1)) (operations-Binds type p xs hs)
