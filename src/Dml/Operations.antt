-- ===== src/Dml/Operations.antt =====
-- Whole requests: what is bound of the values, and how an operation is spelled.
use nginx_upstream_module.Common.{
  true, false, [], ◌∷◌, ℕ, Option, Bytes, Bool, ◌≡◌, ◌<◌, ◌++◌, some, length, List, arith, suc,
  refl, ◌%◌, ◌^◌, ap, ◌∙◌, append_assoc, ◌==◌, none,
}
use mathlib.Core.List.{map}
use nginx_upstream_module.Dml.Bind.{
  Readers, read_next, bind_operation, TpCall, is_operation, and_then, format_bind, issued, ngx_ok,
  op, bind_values, fieldno,
}
use nginx_upstream_module.Url.Args.{Without}
use nginx_upstream_module.Dml.State.{ReqType, Prepared, FormatValue}
use nginx_upstream_module.Dml.Binding.{
  Plain, Operation, plain_slot, plain_calls, operation_slot, operation_calls,
}
use nginx_upstream_module.Dml.Calls.{Binds, runs, Binds-cons, Binds-append}
use nginx_upstream_module.Dml.Request.{
  ArePlain, AreOperations, plain-Binds, announced, first-BindsOne, operations-Binds,
}

module _ {A : Type 0} (c : Readers) (call : TpCall → A → Option A) (error_memory : Bool) where
  unwrapped :
      (s : Bool) (o : Option A)
      → and_then
          (and_then {B = A × Bool} (issued c call error_memory o) (λ t. ngx_ok (t, s)))
          (λ b. ngx_ok (b.0))
        ≡ issued c call error_memory o
  unfolding and_then
  unwrapped s none = refl
  unwrapped s (some tp) = refl

  format_bind-Binds :
      (type : ReqType) (p : Prepared) (vs : List FormatValue) (ks : List TpCall) (s : Bool) (tp : A)
      → p.format_values ≡ vs
      → Binds c call error_memory type p false vs ks s
      → format_bind c call error_memory type p tp ≡ issued c call error_memory (runs call ks tp)
  unfolding format_bind
  format_bind-Binds type p vs ks s tp same binds =
      ap
        (λ ws. and_then (bind_values c call error_memory type p ws (tp, false)) (λ b. ngx_ok (b.0)))
        same
      ∙ ap (λ r. and_then r (λ b. ngx_ok (b.0))) (binds tp)
      ∙ unwrapped s (runs call ks tp)

  -- Values without operations are encoded one after the other.
  pub format_bind-plain :
      (type : ReqType) (p : Prepared) (xs : List Plain) (tp : A)
      → ArePlain type c xs
      → p.format_values ≡ map plain_slot xs
      → format_bind c call error_memory type p tp
        ≡ issued c call error_memory (runs call (plain_calls xs) tp)
  format_bind-plain type p xs tp h same =
      format_bind-Binds type p (map plain_slot xs) (plain_calls xs) false tp same
        (plain-Binds c call error_memory type p xs h)

  -- Where values without operations come first and then at least one with an operation, and all can
  -- be read: the first are encoded, then the operations are announced with the count of the
  -- request, and each operation comes with its value, until a call gives NULL.
  pub format_bind-operations :
      (type : ReqType) (p : Prepared) (xs : List Plain) (y : Operation) (ys : List Operation)
      (tp : A)
      → ArePlain type c xs
      → AreOperations type c (y ∷ ys)
      → p.format_values ≡ map plain_slot xs ++ map operation_slot (y ∷ ys)
      → format_bind c call error_memory type p tp
        ≡ issued c call error_memory
            (runs call (plain_calls xs ++ (announced type p ++ operation_calls (y ∷ ys))) tp)
  format_bind-operations type p xs y ys tp h (i, is) same =
      let first = first-BindsOne c call error_memory type p y (i.0) (i.1) in
      let ops =
        Binds-cons c call error_memory type p false true true (operation_slot y)
          (map operation_slot ys) (announced type p ++ (y.op_call ∷ y.call_of ∷ []))
          (operation_calls ys) first (operations-Binds c call error_memory type p ys is) in
      let all =
        Binds-append c call error_memory type p false false true (map plain_slot xs)
          (map operation_slot (y ∷ ys)) (plain_calls xs)
          ((announced type p ++ (y.op_call ∷ y.call_of ∷ [])) ++ operation_calls ys)
          (plain-Binds c call error_memory type p xs h) ops in
      format_bind-Binds type p (map plain_slot xs ++ map operation_slot (y ∷ ys))
        (plain_calls xs
          ++ ((announced type p ++ (y.op_call ∷ y.call_of ∷ [])) ++ operation_calls ys))
        true tp same all
      ∙ rw (append_assoc (announced type p) (y.op_call ∷ y.call_of ∷ []) (operation_calls ys)) refl

read_next-first :
    (sep : ℕ) (field rest : Bytes)
    → Without sep field
    → read_next sep (field ++ (sep ∷ rest)) ≡ some (field, rest)
unfolding read_next
read_next-first sep [] rest h = ground arith
read_next-first sep (b ∷ bs) rest h = rw (h.0, read_next-first sep bs rest h.1) refl

operation_no_comma : (o : ℕ) → is_operation (o ∷ []) ≡ true → (o == b',') ≡ false
unfolding is_operation
operation_no_comma o h = ground arith

-- An operation, the number of a field, which has no comma, is not empty and is read as a positive
-- number, and a value, with commas between them, are the call for the field before that number, and
-- the value.
pub bind_operation-spelled :
    (c : Readers) (name : Bytes) (o n : ℕ) (field value : Bytes)
    → is_operation (o ∷ []) ≡ true
    → Without b',' field
    → 0 < length field
    → c.ngx_atoi field ≡ some (suc n)
    → bind_operation c name (o ∷ b',' ∷ (field ++ (b',' ∷ value)))
      ≡ ngx_ok (op o (n % 2 ^ 32), value)
unfolding bind_operation
bind_operation-spelled c name o n [] value is_op h some_field number = absurd (omega arith)
bind_operation-spelled c name o n (b ∷ bs) value is_op h some_field number =
    rw
      (
        bind_operation,
        read_next-first b',' (o ∷ []) ((b ∷ bs) ++ (b',' ∷ value)) (operation_no_comma o is_op, tt),
        is_op,
        read_next-first b',' (b ∷ bs) value h,
        fieldno,
        number,
      )
      refl
