-- ===== src/Dml/Allowed.antt =====
use nginx_upstream_module.Common.{
  Option, Bytes, List, ◌≤◌, ℕ, some, ◌≡◌, get_elem?, true, arith, ◌∷◌, none, Bool-cases, refl, ◌==◌,
  inl, ap, ==_iff, inr, suc, [],
}
use nginx_upstream_module.Dml.Access.{is_among, test_allowed, set_iter_type}
use nginx_upstream_module.Dml.State.{Conf, Prepared, Expects, FormatValue}
use nginx_upstream_module.Dml.Prepare.{
  set_limit, Kind, take_argument, filled, Argument, set_offset, set_iter, update_keys, set_space_id,
  upsert_tuples, set_index_id, tuples, fill, its_limit, its_offset, its_iter_type, its_space_id,
  its_index_id, its_value,
}
use nginx_upstream_module.Dml.Loop.{After}
use nginx_upstream_module.Dml.Format.{format_request, Request, ngx_ok}
use nginx_upstream_module.Dml.Ready.{format_request-Ready}  -- What a request may ask for: the spaces, the indexes and the limit that the configuration allows.

-- A number of the list, where there is one.
abbrev pub Allowed : Option (List ℕ) → ℕ → Type 0
Allowed none val = Unit {0}
Allowed (some arr) val = (i : ℕ) × (get_elem? arr i ≡ some val)

is_among-get_elem? :
    (arr : List ℕ) (val : ℕ) → is_among arr val ≡ true → (i : ℕ) × (get_elem? arr i ≡ some val)
unfolding is_among
is_among-get_elem? [] val h = ground arith
is_among-get_elem? (x ∷ xs) val h = elim (Bool-cases (x == val)) [
  | inl e ↦ (0, ap {B = Option ℕ} some ((==_iff x val).0 e))
  | inr e ↦ let (i, at) = is_among-get_elem? xs val (ground arith) in (suc i, at)
]

test_allowed-Allowed :
    (arr : Option (List ℕ)) (val : ℕ) → test_allowed arr val ≡ true → Allowed arr val
test_allowed-Allowed none val h = tt
test_allowed-Allowed (some arr) val h = is_among-get_elem? arr val h

-- The whole of what is allowed.
pub record IsAllowed (c : Conf) (p : Prepared) : Type 0 where
  pub space : Allowed c.allowed_spaces p.space_id
  pub index : Allowed c.allowed_indexes p.index_id
  pub limit_bound : p.limit ≤ c.select_limit_max

abbrev pub Limited : Conf → Prepared → Expects → Type 0
Limited c p e = p.limit ≤ c.select_limit_max

set_limit-Limited :
    (c : Conf) (n : Option ℕ) (p : Prepared) (e : Expects)
    → Limited c p e
    → After (Limited c) (set_limit c n p e)
unfolding set_limit
set_limit-Limited c none p e h = omega arith
set_limit-Limited c (some n) p e h = ground arith

filled_limit : (p : Prepared) (f : Option (Kind × List FormatValue)) → (filled p f).limit ≡ p.limit
filled_limit p none = refl
filled_limit p (some (update_keys, vs)) = refl
filled_limit p (some (upsert_tuples, vs)) = refl
filled_limit p (some (tuples, vs)) = refl

module _ (ngx_atoi : Bytes → Option ℕ) (memory_behind : Bytes) (c : Conf) where
  take_argument-Limited :
      (a : Argument) (key value text : Bytes) (p : Prepared) (e : Expects)
      → Limited c p e
      → After (Limited c) (take_argument ngx_atoi memory_behind c a key value text p e)
  unfolding take_argument
  take_argument-Limited its_limit key value text p e h = set_limit-Limited c (ngx_atoi value) p e h
  take_argument-Limited its_offset key value text p e h =
      elim (ngx_atoi value) as (λ n. After (Limited c) (set_offset n p e)) [ none ↦ h | some n ↦ h ]
  take_argument-Limited its_iter_type key value text p e h =
      elim (set_iter_type text) as (λ n. After (Limited c) (set_iter n p e)) [
        | none ↦ h
        | some n ↦ h
      ]
  take_argument-Limited its_space_id key value text p e h =
      elim (ngx_atoi value) as (λ n. After (Limited c) (set_space_id n p e)) [
        | none ↦ h
        | some n ↦ h
      ]
  take_argument-Limited its_index_id key value text p e h =
      elim (ngx_atoi value) as (λ n. After (Limited c) (set_index_id n p e)) [
        | none ↦ h
        | some n ↦ h
      ]
  take_argument-Limited its_value key value text p e h =
      let q = fill key value p.format_values in omega (arith, filled_limit p q)

  -- Where the limit of the configuration is not above its maximum: a request that is prepared asks
  -- for a space and an index that are in the lists of what is allowed, where there are such lists,
  -- and for no more than the maximum.
  pub format_request-IsAllowed :
      (r : Request) (q : Prepared)
      → c.select_limit ≤ c.select_limit_max
      → format_request ngx_atoi memory_behind c r ≡ ngx_ok q
      → IsAllowed c q
  format_request-IsAllowed r q h eq =
      let ready =
        format_request-Ready ngx_atoi memory_behind c (Limited c) take_argument-Limited (λ vs. h) r
          q eq in
      record {
        space = test_allowed-Allowed c.allowed_spaces q.space_id ready.space;
        index = test_allowed-Allowed c.allowed_indexes q.index_id ready.index;
        limit_bound = ready.kept;
      }
