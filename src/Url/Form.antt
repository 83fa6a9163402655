-- ===== src/Url/Form.antt =====
-- Query strings `k=v&k=v`, and what is taken out of one argument.
use nginx_upstream_module.Common.{
  List, Bytes, drop, ◌<◌, ◌∷◌, ◌≡◌, length, take, ◌++◌, ◌+◌, arith, [], suc, some, ◌≤◌, refl,
  length-append, ◌∙◌, drop-append, take-append_one,
}
use nginx_upstream_module.Url.Args.{Without, Ends}
use nginx_upstream_module.Url.{NextArg}

pub record Pair : Type 0 where
  pub key : Bytes
  pub value : Bytes

-- A key and a value as they stand in a query string; the value is not empty.
pub record IsPair (p : Pair) : Type 0 where
  pub key_equals : Without b'=' p.key
  pub key_ends : Without b'&' p.key
  pub value_ends : Without b'&' p.value
  pub value_not_empty : 0 < length p.value

abbrev pub further : List Pair → Bytes
further [] = []
further (p ∷ ps) = b'&' ∷ (p.key ++ (b'=' ∷ (p.value ++ further ps)))

-- `k=v&k=v`.
abbrev pub query : List Pair → Bytes
query [] = []
query (p ∷ ps) = p.key ++ (b'=' ∷ (p.value ++ further ps))

pub further-Ends : (ps : List Pair) → Ends (further ps)
further-Ends [] = tt
further-Ends (p ∷ ps) = refl

pub behind_further : (ps : List Pair) → drop 1 (further ps) ≡ query ps
behind_further [] = refl
behind_further (p ∷ ps) = refl

-- The text of a first argument, and what is taken out of it.
abbrev pub first : Pair → Bytes → Bytes
first p rest = p.key ++ (b'=' ∷ (p.value ++ rest))

abbrev pub first_arg : Pair → NextArg
first_arg p = record { it = length p.key + 1 + length p.value; value = some (length p.key + 1) }

pub drop-first_value :
    (p : Pair) (rest : Bytes) → drop (length p.key + 1) (first p rest) ≡ p.value ++ rest
drop-first_value p rest = drop-append 1 p.key (b'=' ∷ (p.value ++ rest))

pub drop-first :
    (p : Pair) (rest : Bytes)
    → drop (length p.key + 1 + length p.value + 1) (first p rest) ≡ drop 1 rest
drop-first p rest =
    let z : length p.key + 1 + length p.value + 1 ≡ length p.key + (suc (length p.value + 1)) =
      omega arith in
    rw z (
      drop-append (suc (length p.value + 1)) p.key (b'=' ∷ (p.value ++ rest))
      ∙ drop-append 1 p.value rest)

pub take-first_key :
    (p : Pair) (rest : Bytes) → take (length p.key + 1) (first p rest) ≡ p.key ++ (b'=' ∷ [])
take-first_key p rest = take-append_one p.key b'=' (p.value ++ rest)

length-further : (ps : List Pair) → length ps ≤ length (further ps)
length-further [] = omega arith
length-further (p ∷ ps) = omega (
  arith,
  length-append p.key (b'=' ∷ (p.value ++ further ps)),
  length-append p.value (further ps),
  length-further ps,
)

pub length-query : (ps : List Pair) → length ps ≤ length (query ps)
length-query [] = omega arith
length-query (p ∷ ps) = omega (
  arith,
  length-append p.key (b'=' ∷ (p.value ++ further ps)),
  length-append p.value (further ps),
  length-further ps,
)
