-- ===== src/Dml/Binding.antt =====
-- The calls that the values of a request come to.
use nginx_upstream_module.Common.{
  none, true, false, [], ◌∷◌, List, Bytes, ◌≡◌, Option, some, Bool, refl, ap, ◌∙◌,
}
use nginx_upstream_module.Dml.State.{FormatValue}
use nginx_upstream_module.Dml.Bind.{
  Readers, TpCall, value_call, bind_operation, ngx_ok, encoded, begin, with_operation, and_then,
  issue, Binding, issued, Result, bind_rest,
}
use nginx_upstream_module.Dml.Prepare.{put}
use nginx_upstream_module.Dml.Calls.{runs, carry, and_then_assoc, and_then_cong, runs-append}

-- A value, and the call that encodes it.
pub record Plain : Type 0 where
  pub slot : FormatValue
  pub text : Bytes
  pub call_of : TpCall

-- A value that begins with an operation, the call for that, and the one for the rest.
pub record Operation : Type 0 where
  pub slot : FormatValue
  pub text : Bytes
  pub rest : Bytes
  pub op_call : TpCall
  pub call_of : TpCall

abbrev pub plain_slot : Plain → FormatValue
plain_slot x = put x.text x.slot

abbrev pub operation_slot : Operation → FormatValue
operation_slot x = put x.text x.slot

abbrev pub plain_calls : List Plain → List TpCall
plain_calls [] = []
plain_calls (x ∷ xs) = x.call_of ∷ plain_calls xs

abbrev pub operation_calls : List Operation → List TpCall
operation_calls [] = []
operation_calls (x ∷ xs) = x.op_call ∷ x.call_of ∷ operation_calls xs

abbrev pub IsPlain : Readers → Plain → Type 0
IsPlain c x = value_call c x.slot.type x.text ≡ some x.call_of

pub record IsOperation (c : Readers) (x : Operation) : Type 0 where
  pub operation_law : bind_operation c x.slot.name x.text ≡ ngx_ok (x.op_call, x.rest)
  pub value_law : value_call c x.slot.type x.rest ≡ some x.call_of

module _ {A : Type 0} (c : Readers) (call : TpCall → A → Option A) (error_memory : Bool) where
  pub encoded-call :
      (v : FormatValue) (value : Bytes) (k : TpCall) (tp : A)
      → value_call c v.type value ≡ some k
      → encoded c call error_memory v value tp ≡ issue c call error_memory k tp
  unfolding encoded
  encoded-call v value k tp h = rw (encoded, h) refl

  pub begin_off :
      (starts : Bool) (k : TpCall) (b : Binding c call error_memory)
      → starts ≡ false
      → begin c call error_memory starts k b ≡ ngx_ok b
  unfolding begin
  begin_off starts k (tp, s) h = rw h refl

  pub begin_again :
      (starts : Bool) (k : TpCall) (tp : A)
      → begin c call error_memory starts k (tp, true) ≡ ngx_ok (tp, true)
  unfolding begin
  begin_again true k tp = refl
  begin_again false k tp = refl

  pub begin_on :
      (starts : Bool) (k : TpCall) (tp : A)
      → starts ≡ true
      → begin c call error_memory starts k (tp, false)
        ≡ and_then (issue c call error_memory k tp) (λ tp'. ngx_ok (tp', true))
  unfolding begin
  begin_on starts k tp h = rw h refl

  with_operation_off :
      (wanted : Bool) (name value : Bytes) (tp : A)
      → wanted ≡ false
      → with_operation c call error_memory wanted name value tp ≡ ngx_ok (tp, value)
  unfolding with_operation
  with_operation_off wanted name value tp h = rw h refl

  with_operation_on :
      (wanted : Bool) (name value rest : Bytes) (o : TpCall) (tp : A)
      → wanted ≡ true
      → bind_operation c name value ≡ ngx_ok (o, rest)
      → with_operation c call error_memory wanted name value tp
        ≡ and_then (issue c call error_memory o tp) (λ tp'. ngx_ok (tp', rest))
  unfolding with_operation and_then
  with_operation_on wanted name value rest o tp h e = rw (h, e) refl

  pub one_run :
      {B : Type 0} (k : TpCall) (tp : A) (g : A → Result B)
      → and_then (issue c call error_memory k tp) g
        ≡ and_then (issued c call error_memory (runs call (k ∷ []) tp)) g
  unfolding runs
  one_run k tp g =
      elim (call k tp)
        as (λ o.
          and_then (issued c call error_memory o) g
          ≡ and_then (issued c call error_memory (carry (λ a. some a) o)) g) [
            | none ↦ refl
            | some a ↦ refl
          ]

  -- A value without an operation, and one with an operation.
  pub bind_rest_plain :
      (wanted s : Bool) (x : Plain) (tp : A)
      → wanted ≡ false
      → IsPlain c x
      → bind_rest c call error_memory wanted (plain_slot x) x.text s tp
        ≡ and_then
            (issued c call error_memory (runs call (x.call_of ∷ []) tp))
            (λ tp'. ngx_ok (tp', s))
  unfolding bind_rest and_then runs
  bind_rest_plain wanted s x tp h e =
      rw
        (
          bind_rest,
          with_operation_off wanted x.slot.name x.text tp h,
          encoded-call (plain_slot x) x.text x.call_of tp e,
        )
        (one_run x.call_of tp (λ tp'. ngx_ok (tp', s)))

  pub bind_rest_operation :
      (wanted s : Bool) (x : Operation) (tp : A)
      → wanted ≡ true
      → IsOperation c x
      → bind_rest c call error_memory wanted (operation_slot x) x.text s tp
        ≡ and_then
            (issued c call error_memory (runs call (x.op_call ∷ x.call_of ∷ []) tp))
            (λ tp'. ngx_ok (tp', s))
  unfolding bind_rest and_then runs
  bind_rest_operation wanted s x tp h e =
      rw
        (
          bind_rest,
          with_operation_on wanted x.slot.name x.text x.rest x.op_call tp h e.operation_law,
        )
        (and_then_assoc (issue c call error_memory x.op_call tp) _ _
          ∙ and_then_cong (issue c call error_memory x.op_call tp) _ _ (λ tp'.
            ap (λ r. and_then r (λ t. ngx_ok (t, s)))
              (encoded-call (operation_slot x) x.rest x.call_of tp' e.value_law)
            ∙ one_run x.call_of tp' (λ t. ngx_ok (t, s)))
          ∙ one_run x.op_call tp _
          ∙ runs-append c call error_memory (x.op_call ∷ []) (x.call_of ∷ []) tp
              (λ t. ngx_ok (t, s)))
