-- ===== src/Dml/Ends.antt =====
use nginx_upstream_module.Common.{
  Bool, Bytes, Option, ◌≢◌, ℕ, arith, some, true, false, refl, length, none, if◌then◌else◌, not,
}
use nginx_upstream_module.Dml.Format.{
  decided, Outcome, out_of_fuel, format_prepare, format_request, refused, Request, not_allowed,
  prepare_from, format_init, expected, nothing, ngx_ok, bad_request,
}
use nginx_upstream_module.Dml.State.{Conf, Prepared}
use nginx_upstream_module.Dml.Prepare.{Looped, no_fuel, done, denied, prepare_args}
use nginx_upstream_module.Dml.Loop.{prepare_args_ends}
use nginx_upstream_module.Dml.Access.{test_allowed}  -- Requests are prepared in as many steps as their input has bytes.

refused_ends : (memory : Bool) (o : Outcome) → o ≢ out_of_fuel → refused memory o ≢ out_of_fuel
refused_ends true o h eq = h eq
refused_ends false o h eq = ground arith

choice_ends :
    (memory space index none_left : Bool) (p : Prepared)
    → (if not space
        then refused memory not_allowed
        else if not index
        then refused memory not_allowed
        else if none_left
        then ngx_ok p
        else refused memory bad_request)
      ≢ out_of_fuel
choice_ends true true true true p eq = ground arith
choice_ends true true true false p eq = ground arith
choice_ends true true false none_left p eq = ground arith
choice_ends true false index none_left p eq = ground arith
choice_ends false true true true p eq = ground arith
choice_ends false true true false p eq = ground arith
choice_ends false true false none_left p eq = ground arith
choice_ends false false index none_left p eq = ground arith

decided_ends :
    (memory : Bool) (c : Conf) (l : Looped) → l ≢ no_fuel → decided memory c l ≢ out_of_fuel
unfolding decided
decided_ends memory c (done p e) h eq =
    choice_ends memory (test_allowed c.allowed_spaces p.space_id)
      (test_allowed c.allowed_indexes p.index_id) (nothing e) p eq
decided_ends memory c denied h eq = refused_ends memory not_allowed (λ e. ground arith) eq
decided_ends memory c no_fuel h eq = h refl

module _ (ngx_atoi : Bytes → Option ℕ) (memory_behind : Bytes) (c : Conf) where
  prepare_from_ends :
      (memory : Bool) (i : Option (Prepared × Bytes))
      → prepare_from ngx_atoi memory_behind c memory i ≢ out_of_fuel
  unfolding format_prepare
  prepare_from_ends memory none eq = ground arith
  prepare_from_ends memory (some (p, input)) eq =
      decided_ends memory c
        (prepare_args ngx_atoi memory_behind c (length input) input p (expected c))
        (prepare_args_ends ngx_atoi memory_behind c (length input) input p (expected c)
          (omega arith))
        eq

  -- Every request is prepared, refused or an error: the loop over its arguments ends within as many
  -- turns as its input has bytes.
  pub format_request_ends : (r : Request) → format_request ngx_atoi memory_behind c r ≢ out_of_fuel
  unfolding format_request
  format_request_ends r = prepare_from_ends r.error_memory (format_init c r)
