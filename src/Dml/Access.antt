-- ===== src/Dml/Access.antt =====
use nginx_upstream_module.Common.{
  List, Option, ℕ, Bytes, Bool, false, true, codes, none, ◌∷◌, some, if◌then◌else◌, suc, ◌==◌,
  length, [], zero,
}
use nginx_upstream_module.Dml.State.{
  IterType, eq, req, all, lt, le, ge, gt, all_set, any_set, all_non_set, overlaps, neighbor,
}  -- Which spaces and indexes may be asked for, and the names of iterators.

-- ngx_http_tnt_test_allowed: `true` is NGX_OK, `false` is NGX_HTTP_NOT_ALLOWED.
unfoldable pub is_among : List ℕ → ℕ → Bool
is_among [] val = false
is_among (x ∷ xs) val = if x == val then true else is_among xs val

abbrev pub test_allowed : Option (List ℕ) → ℕ → Bool
test_allowed none val = true
test_allowed (some arr) val = is_among arr val

-- `ngx_strncmp(a, b, n) == 0`, with nothing equal behind the end of the bytes at hand.
unfoldable pub strncmp : ℕ → Bytes → Bytes → Bool
strncmp zero a b = true
strncmp (suc n) (x ∷ a) (y ∷ b) =
    let rest = strncmp n a b in if x == y then (if x == 0 then true else rest) else false
strncmp (suc n) _ _ = false

-- ngx_http_tnt_set_iter_type, with the first of the tests that holds; `none` is NGX_ERROR.
abbrev pub iter_names : List (Bytes × IterType)
iter_names =
    (codes "eq", eq)
    ∷ (codes "req", req)
    ∷ (codes "all", all)
    ∷ (codes "lt", lt)
    ∷ (codes "le", le)
    ∷ (codes "ge", ge)
    ∷ (codes "gt", gt)
    ∷ (codes "all_set", all_set)
    ∷ (codes "any_set", any_set)
    ∷ (codes "all_non_set", all_non_set)
    ∷ (codes "overlaps", overlaps)
    ∷ (codes "neighbor", neighbor)
    ∷ []

unfoldable pub first_named : List (Bytes × IterType) → Bytes → Option IterType
first_named [] text = none
first_named ((name, type) ∷ rest) text =
    let later = first_named rest text in
    if strncmp (length name) text name then some type else later

abbrev pub set_iter_type : Bytes → Option IterType
set_iter_type text = first_named iter_names text
