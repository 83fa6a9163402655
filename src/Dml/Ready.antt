-- ===== src/Dml/Ready.antt =====
use nginx_upstream_module.Dml.State.{Conf, Prepared, Expects, FormatValue}
use nginx_upstream_module.Common.{
  Bool, Bytes, Option, List, if◌then◌else◌, some, ℕ, not, ◌≡◌, true, [], none, arith, subst, false,
  refl, length, sym,
}
use nginx_upstream_module.Dml.Format.{
  decided, Request, with_input, init_values, format_prepare, format_request, refused, initial,
  format_init, nothing, not_allowed, ngx_ok, format_read_input, bad_request, expected, prepare_from,
}
use nginx_upstream_module.Dml.Access.{test_allowed}
use nginx_upstream_module.Dml.Prepare.{
  Looped, Argument, done, take_argument, prepare_args, denied, no_fuel,
}
use nginx_upstream_module.Dml.Loop.{Finally, After, prepare_args-Finally}  -- What holds of a request that is prepared.

-- The tests behind the loop have passed, and `kept` holds as it does after every argument.
pub record Ready (c : Conf) (I : Prepared → Expects → Type 0) (q : Prepared) : Type 0 where
  pub expects : Expects
  pub kept : I q expects
  pub space : test_allowed c.allowed_spaces q.space_id ≡ true
  pub index : test_allowed c.allowed_indexes q.index_id ≡ true
  pub none_left : nothing expects ≡ true

chosen :
    (memory space index none_left : Bool) (p q : Prepared)
    → (if not space
        then refused memory not_allowed
        else if not index
        then refused memory not_allowed
        else if none_left
        then ngx_ok p
        else refused memory bad_request)
      ≡ ngx_ok q
    → (space ≡ true) × (index ≡ true) × (none_left ≡ true) × (p ≡ q)
chosen memory true true true p q eq = (refl, refl, refl, ground arith)
chosen true true true false p q eq = ground arith
chosen false true true false p q eq = ground arith
chosen true true false none_left p q eq = ground arith
chosen false true false none_left p q eq = ground arith
chosen true false index none_left p q eq = ground arith
chosen false false index none_left p q eq = ground arith

pub decided-Ready :
    (c : Conf) (I : Prepared → Expects → Type 0) (memory : Bool) (l : Looped) (q : Prepared)
    → Finally I l
    → decided memory c l ≡ ngx_ok q
    → Ready c I q
unfolding decided
decided-Ready c I memory (done p e) q i eq =
    let (space, index, none_left, same) =
      chosen memory (test_allowed c.allowed_spaces p.space_id)
        (test_allowed c.allowed_indexes p.index_id) (nothing e) p q eq in
    subst (Ready c I) same
      (record { expects = e; kept = i; space = space; index = index; none_left = none_left })
decided-Ready c I true denied q i eq = ground arith
decided-Ready c I false denied q i eq = ground arith
decided-Ready c I memory no_fuel q i eq = ground arith

-- What is prepared at first, of the values of the format.
abbrev pub IsInitial : Conf → Option (Prepared × Bytes) → Type 0
IsInitial c none = Unit {0}
IsInitial c (some (p, input)) = (vs : List FormatValue) × (p ≡ initial c vs)

read-IsInitial :
    (c : Conf) (vs : List FormatValue) (input : Option Bytes)
    → IsInitial c (with_input (initial c vs) input)
read-IsInitial c vs none = tt
read-IsInitial c vs (some input) = (vs, refl)

init-IsInitial :
    (c : Conf) (r : Request) (values : Option (List FormatValue))
    → IsInitial c (init_values c r values)
init-IsInitial c r none = ([], refl)
init-IsInitial c r (some vs) =
    elim r.values_memory
      as (λ m. IsInitial c (if m then with_input (initial c vs) (format_read_input r) else none)) [
        | true ↦ read-IsInitial c vs (format_read_input r)
        | false ↦ tt
      ]

module _ (ngx_atoi : Bytes → Option ℕ) (memory_behind : Bytes) (c : Conf) where
  prepare_from-Ready :
      (I : Prepared → Expects → Type 0)
      → ((a : Argument) (key value text : Bytes) (p : Prepared) (e : Expects)
          → I p e
          → After I (take_argument ngx_atoi memory_behind c a key value text p e))
      → ((vs : List FormatValue) → I (initial c vs) (expected c))
      → (memory : Bool) (i : Option (Prepared × Bytes)) (q : Prepared) → IsInitial c i
      → prepare_from ngx_atoi memory_behind c memory i ≡ ngx_ok q
      → Ready c I q
  unfolding format_prepare
  prepare_from-Ready I keeps first memory none q h eq = ground arith
  prepare_from-Ready I keeps first memory (some (p, input)) q (vs, same) eq =
      decided-Ready c I memory
        (prepare_args ngx_atoi memory_behind c (length input) input p (expected c)) q
        (prepare_args-Finally ngx_atoi memory_behind c I keeps (length input) input p (expected c)
          (subst (λ p'. I p' (expected c)) (sym same) (first vs)))
        eq

  -- What holds at first and is kept by every argument holds of all that is prepared.
  pub format_request-Ready :
      (I : Prepared → Expects → Type 0)
      → ((a : Argument) (key value text : Bytes) (p : Prepared) (e : Expects)
          → I p e
          → After I (take_argument ngx_atoi memory_behind c a key value text p e))
      → ((vs : List FormatValue) → I (initial c vs) (expected c))
      → (r : Request) (q : Prepared) → format_request ngx_atoi memory_behind c r ≡ ngx_ok q
      → Ready c I q
  unfolding format_request format_init
  format_request-Ready I keeps first r q eq =
      prepare_from-Ready I keeps first r.error_memory (format_init c r) q
        (init-IsInitial c r c.format_values) eq
