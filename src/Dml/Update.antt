-- ===== src/Dml/Update.antt =====
-- Updates from the query string to the calls: as many operations are announced as follow.
use nginx_upstream_module.Common.{
  true, false, [], ◌∷◌, Bool, List, not, ◌≡◌, ◌++◌, ◌+◌, All, arith, length, refl, ℕ, ◌<◌, Option,
  ◌^◌, Bytes, ◌%◌, ap, ◌∙◌,
}
use mathlib.Core.List.{map}
use nginx_upstream_module.Dml.Prepare.{Kind, tuples, kind_of}
use nginx_upstream_module.Dml.Bind.{Readers, TpCall, format_bind, issued, updatebegin}
use nginx_upstream_module.Dml.State.{FormatValue, tp_update, Conf, Prepared}
use nginx_upstream_module.Dml.Binding.{
  Plain, Operation, plain_slot, operation_slot, plain_calls, operation_calls,
}
use nginx_upstream_module.Dml.Counts.{bound, same}
use nginx_upstream_module.Dml.Request.{ArePlain, AreOperations}
use nginx_upstream_module.Url.Form.{Pair, IsPair, query}
use nginx_upstream_module.Dml.Format.{ngx_ok, format_prepare, initial}
use nginx_upstream_module.Dml.Calls.{runs}
use nginx_upstream_module.Dml.Tally.{format_prepare-counted}
use nginx_upstream_module.Dml.Operations.{format_bind-operations}

bound-append : (k : Kind) (vs ws : List FormatValue) → bound k (vs ++ ws) ≡ bound k vs + bound k ws
bound-append k [] ws = omega arith
bound-append k (v ∷ vs) ws = omega (arith, bound-append k vs ws)

key-kind :
    (update_key upsert_op : Bool)
    → not update_key ≡ false
    → same tuples (kind_of update_key upsert_op) ≡ 0
key-kind true upsert_op h = refl
key-kind false upsert_op h = ground arith

operation-kind :
    (update_key upsert_op : Bool)
    → not update_key ≡ true
    → upsert_op ≡ false
    → same tuples (kind_of update_key upsert_op) ≡ 1
operation-kind false false h e = refl
operation-kind true upsert_op h e = ground arith
operation-kind false true h e = ground arith

small : (k n : ℕ) → k ≡ n → n < 2 ^ 32 → k % 2 ^ 32 ≡ n
small k n same below = omega arith

module _ (c : Readers) where
  bound-plain : (xs : List Plain) → ArePlain tp_update c xs → bound tuples (map plain_slot xs) ≡ 0
  bound-plain [] h = refl
  bound-plain (x ∷ xs) (h, hs) =
      omega (arith, key-kind x.slot.update_key x.slot.upsert_op (h.0), bound-plain xs hs)

  bound-operations :
      (ys : List Operation)
      → AreOperations tp_update c ys
      → All (λ y. y.slot.upsert_op ≡ false) ys
      → bound tuples (map operation_slot ys) ≡ length ys
  bound-operations [] h u = refl
  bound-operations (y ∷ ys) (h, hs) (u, us) =
      omega (
        arith,
        operation-kind y.slot.update_key y.slot.upsert_op (h.0) u,
        bound-operations ys hs us,
      )

  -- On a query string `k=v&k=v` with values that are not empty: where an update is prepared whose
  -- values are keys and then operations, fewer than 2^32, none of them marked for an upsert, each
  -- of which can be read, the keys are encoded, then as many operations are announced as follow,
  -- and each operation comes with its value, until a call gives NULL.
  pub format_bind-update :
      {A : Type 0} (call : TpCall → A → Option A) (error_memory : Bool) (memory_behind : Bytes)
      → (conf : Conf) (memory : Bool) (vs : List FormatValue) (args : List Pair) (q : Prepared)
      → (xs : List Plain) (y : Operation) (ys : List Operation) (tp : A) → All IsPair args
      → format_prepare c.ngx_atoi memory_behind conf memory (initial conf vs) (query args)
        ≡ ngx_ok q
      → q.format_values ≡ map plain_slot xs ++ map operation_slot (y ∷ ys)
      → ArePlain tp_update c xs
      → AreOperations tp_update c (y ∷ ys)
      → All (λ z. z.slot.upsert_op ≡ false) (y ∷ ys)
      → length (y ∷ ys) < 2 ^ 32
      → format_bind c call error_memory tp_update q tp
        ≡ issued c call error_memory (
            runs call
              (plain_calls xs ++ (updatebegin (length (y ∷ ys)) ∷ operation_calls (y ∷ ys)))
              tp)
  format_bind-update call error_memory memory_behind conf memory vs args q xs y ys tp pairs ready
        values plain ops no_upsert few =
      let counts =
        format_prepare-counted c.ngx_atoi memory_behind conf memory vs args q pairs ready tuples in
      let parts =
        ap (bound tuples) values
        ∙ bound-append tuples (map plain_slot xs) (map operation_slot (y ∷ ys)) in
      let none_plain = bound-plain xs plain in
      let all_ops = bound-operations (y ∷ ys) ops no_upsert in
      let n : q.tuples_count % 2 ^ 32 ≡ length (y ∷ ys) =
        small q.tuples_count (length (y ∷ ys)) (omega (arith, counts, parts, none_plain, all_ops))
          few in
      format_bind-operations c call error_memory tp_update q xs y ys tp plain ops values
      ∙ ap
          (λ k.
            issued c call error_memory
              (runs call (plain_calls xs ++ (updatebegin k ∷ operation_calls (y ∷ ys))) tp))
          n
