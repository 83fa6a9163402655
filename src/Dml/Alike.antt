-- ===== src/Dml/Alike.antt =====
use nginx_upstream_module.Dml.State.{Prepared, Conf, IterType, Expects}
use nginx_upstream_module.Dml.Prepare.{
  set_limit, Argument, its_value, Step, take_argument, set_offset, set_iter, set_space_id,
  set_index_id, going, format_prepare_kv, forbidden, its_limit, its_offset, its_iter_type,
  its_space_id, its_index_id,
}
use nginx_upstream_module.Common.{
  true, false, Option, Bytes, ◌≡◌, ℕ, some, ◌⊎◌, ◌≢◌, ltb, inr, inl, none, if◌then◌else◌, arith,
  refl, false,
}
use nginx_upstream_module.Dml.Loop.{After}
use nginx_upstream_module.Dml.Access.{set_iter_type}  -- The arguments that are no values of the format leave its values and their counts as they are.

abbrev pub Alike : Prepared → Prepared → Type 0
Alike p q =
    (q.format_values ≡ p.format_values)
    × (q.update_keys_count ≡ p.update_keys_count)
    × (q.upsert_tuples_count ≡ p.upsert_tuples_count)
    × (q.tuples_count ≡ p.tuples_count)

set_limit-Alike :
    (c : Conf) (o : Option ℕ) (p : Prepared) (e : Expects)
    → After (λ q e'. Alike p q) (set_limit c o p e)
unfolding set_limit
set_limit-Alike c none p e = (refl, refl, refl, refl)
set_limit-Alike c (some n) p e =
    elim (ltb c.select_limit_max n)
      as (λ o.
        After (λ q e'. Alike p q)
          (if o then forbidden else going (record p { limit = n }) (record e { limit = false }))) [
            | true ↦ tt
            | false ↦ (refl, refl, refl, refl)
          ]

set_offset-Alike :
    (o : Option ℕ) (p : Prepared) (e : Expects) → After (λ q e'. Alike p q) (set_offset o p e)
set_offset-Alike none p e = (refl, refl, refl, refl)
set_offset-Alike (some n) p e = (refl, refl, refl, refl)

set_iter-Alike :
    (o : Option IterType) (p : Prepared) (e : Expects) → After (λ q e'. Alike p q) (set_iter o p e)
set_iter-Alike none p e = (refl, refl, refl, refl)
set_iter-Alike (some n) p e = (refl, refl, refl, refl)

set_space_id-Alike :
    (o : Option ℕ) (p : Prepared) (e : Expects) → After (λ q e'. Alike p q) (set_space_id o p e)
set_space_id-Alike none p e = (refl, refl, refl, refl)
set_space_id-Alike (some n) p e = (refl, refl, refl, refl)

set_index_id-Alike :
    (o : Option ℕ) (p : Prepared) (e : Expects) → After (λ q e'. Alike p q) (set_index_id o p e)
set_index_id-Alike none p e = (refl, refl, refl, refl)
set_index_id-Alike (some n) p e = (refl, refl, refl, refl)

Argument-cases : (a : Argument) → (a ≡ its_value) ⊎ (a ≢ its_value)
Argument-cases its_limit = inr (λ e. ground arith)
Argument-cases its_offset = inr (λ e. ground arith)
Argument-cases its_iter_type = inr (λ e. ground arith)
Argument-cases its_space_id = inr (λ e. ground arith)
Argument-cases its_index_id = inr (λ e. ground arith)
Argument-cases its_value = inl refl

spread :
    (I : Prepared → Expects → Type 0) (p : Prepared) (s : Step)
    → ((q : Prepared) (e : Expects) → Alike p q → I q e)
    → After (λ q e. Alike p q) s
    → After I s
spread I p (going q e) all like = all q e like
spread I p forbidden all like = tt

module _ (ngx_atoi : Bytes → Option ℕ) (memory_behind : Bytes) (c : Conf) where
  take_argument-Alike :
      (a : Argument) (key value text : Bytes) (p : Prepared) (e : Expects)
      → a ≢ its_value
      → After (λ q e'. Alike p q) (take_argument ngx_atoi memory_behind c a key value text p e)
  unfolding take_argument
  take_argument-Alike its_limit key value text p e other = set_limit-Alike c (ngx_atoi value) p e
  take_argument-Alike its_offset key value text p e other = set_offset-Alike (ngx_atoi value) p e
  take_argument-Alike its_iter_type key value text p e other =
      set_iter-Alike (set_iter_type text) p e
  take_argument-Alike its_space_id key value text p e other =
      set_space_id-Alike (ngx_atoi value) p e
  take_argument-Alike its_index_id key value text p e other =
      set_index_id-Alike (ngx_atoi value) p e
  take_argument-Alike its_value key value text p e other = absurd (other refl)

  -- What depends on the values and their counts only is kept where a value keeps it.
  pub take_argument-spread :
      (I : Prepared → Expects → Type 0) (p : Prepared) (e : Expects) (key value : Bytes)
      → ((q : Prepared) (e' : Expects) → Alike p q → I q e')
      → I (format_prepare_kv key value p) e
      → (a : Argument) (text : Bytes)
      → After I (take_argument ngx_atoi memory_behind c a key value text p e)
  unfolding take_argument
  take_argument-spread I p e key value like its a text = elim (Argument-cases a) [
    | inl same ↦ rw same its
    | inr other ↦
        spread I p (take_argument ngx_atoi memory_behind c a key value text p e) like
          (take_argument-Alike a key value text p e other)
  ]
