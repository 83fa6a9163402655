-- ===== src/Dml/Iterators.antt =====
use nginx_upstream_module.Dml.Access.{strncmp, first_named, set_iter_type}
use nginx_upstream_module.Common.{
  Bytes, length, ◌++◌, ◌≢◌, ◌≡◌, some, true, ◌∷◌, arith, codes, [], refl,
}
use nginx_upstream_module.Dml.State.{all_set, all_non_set}  -- The order of the tests on the name of an iterator.

strncmp-prefix :
    (name rest text : Bytes)
    → strncmp (length (name ++ rest)) text (name ++ rest) ≡ true
    → strncmp (length name) text name ≡ true
unfolding strncmp
strncmp-prefix [] rest text h = refl
strncmp-prefix (y ∷ name) rest [] h = ground arith
strncmp-prefix (y ∷ name) rest (x ∷ text) h = ground (arith, strncmp-prefix name rest text)

-- No text gives the iterator `all_set` or `all_non_set`.
pub set_iter_type_shadowed :
    (text : Bytes) → (set_iter_type text ≢ some all_set) × (set_iter_type text ≢ some all_non_set)
unfolding first_named
set_iter_type_shadowed text =
    let shorter = strncmp-prefix (codes "all") (codes "_set") text in
    let shorter' = strncmp-prefix (codes "all") (codes "_non_set") text in
    (λ e. ground arith, λ e. ground arith)
