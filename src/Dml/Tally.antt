-- ===== src/Dml/Tally.antt =====
use nginx_upstream_module.Dml.State.{Prepared, Conf, FormatValue, Expects}
use nginx_upstream_module.Common.{
  Bytes, List, Option, ◌<◌, length, arith, All, ℕ, ◌≡◌, Bool, some, ◌∷◌, ◌++◌, [], refl, ap, subst,
  sym, none,
}
use nginx_upstream_module.Dml.Prepare.{
  Kind, format_prepare_kv, filled, fill, prepare_args, argument, update_keys, upsert_tuples, tuples,
}
use nginx_upstream_module.Dml.Alike.{Alike, take_argument-spread}
use nginx_upstream_module.Url.Form.{Pair, further, query, IsPair, length-query}
use nginx_upstream_module.Dml.Counts.{
  bound, counted, counted_one, counted-Alike, bound-initial, filled_values,
}
use nginx_upstream_module.Dml.Exact.{Exactly, AllFull, IsFull, fill-Exactly, fill-AllFull}
use nginx_upstream_module.Dml.Format.{initial, format_prepare, no_value, ngx_ok, expected}
use nginx_upstream_module.Dml.Pairs.{
  prepare_pairs, with_equals, prepare_args-prepare_pairs, take_pair,
}
use mathlib.Core.List.{map}
use nginx_upstream_module.Dml.Loop.{Finally, resume-Finally}
use nginx_upstream_module.Dml.Ready.{decided-Ready}  -- The counts of a request whose arguments are keys and values that are not empty.

record IsExact (p : Prepared) : Type 0 where
  for_kind : (k : Kind) → bound k p.format_values ≡ counted k p
  full : All IsFull p.format_values

filled-IsExact :
    (p : Prepared) (f : Option (Kind × List FormatValue))
    → IsExact p
    → ((k : Kind) → Exactly k p.format_values f)
    → AllFull f
    → IsExact (filled p f)
filled-IsExact p none h f full = h
filled-IsExact p (some (j, vs)) h f full = record {
  for_kind = λ k.
      omega (arith, f k, h.for_kind k, counted_one k j p vs, ap (bound k) (filled_values j p vs));
  full = subst (All IsFull) (sym (filled_values j p vs)) full;
}

kv-IsExact :
    (key value : Bytes) (p : Prepared)
    → 0 < length value
    → IsExact p
    → IsExact (format_prepare_kv key value p)
kv-IsExact key value p n h =
    filled-IsExact p (fill key value p.format_values) h
      (λ k. fill-Exactly k key value p.format_values h.full)
      (fill-AllFull key value p.format_values n h.full)

Alike-IsExact : (p q : Prepared) → IsExact p → Alike p q → IsExact q
Alike-IsExact p q h like = record {
  for_kind = λ k. omega (arith, h.for_kind k, counted-Alike k p q like, ap (bound k) like.0);
  full = subst (All IsFull) (sym like.0) h.full;
}

no_value-IsFull : (vs : List FormatValue) → All IsFull (map no_value vs)
no_value-IsFull [] = tt
no_value-IsFull (v ∷ vs) = (refl, no_value-IsFull vs)

initial-count : (c : Conf) (vs : List FormatValue) (k : Kind) → counted k (initial c vs) ≡ 0
initial-count c vs update_keys = refl
initial-count c vs upsert_tuples = refl
initial-count c vs tuples = refl

initial-IsExact : (c : Conf) (vs : List FormatValue) → IsExact (initial c vs)
initial-IsExact c vs = record {
  for_kind = λ k. omega (arith, bound-initial k vs, initial-count c vs k);
  full = no_value-IsFull vs;
}

module _ (ngx_atoi : Bytes → Option ℕ) (memory_behind : Bytes) (c : Conf) where
  prepare_pairs-IsExact :
      (xs : List Pair) (p : Prepared) (e : Expects)
      → All IsPair xs
      → IsExact p
      → Finally (λ q e'. IsExact q) (prepare_pairs ngx_atoi memory_behind c xs p e)
  unfolding prepare_pairs
  prepare_pairs-IsExact [] p e h i = i
  prepare_pairs-IsExact (x ∷ xs) p e (h, hs) i =
      let key = with_equals x.key in
      resume-Finally (λ q e'. IsExact q) (prepare_pairs ngx_atoi memory_behind c xs)
        (take_pair ngx_atoi memory_behind c x xs p e)
        (take_argument-spread ngx_atoi memory_behind c (λ q e'. IsExact q) p e key x.value
          (λ q e' like. Alike-IsExact p q i like) (kv-IsExact key x.value p h.value_not_empty i)
          (argument c e key) ((x.value ++ further xs) ++ memory_behind))
        (λ q e' j. prepare_pairs-IsExact xs q e' hs j)

  -- On a query string `k=v&k=v` whose values are not empty, whose keys have neither `=` nor `&` and
  -- whose values have no `&`, when a request with nothing bound yet is prepared: the count of each
  -- kind is the number of values of that kind that are bound.
  pub format_prepare-counted :
      (memory : Bool) (vs : List FormatValue) (xs : List Pair) (q : Prepared)
      → All IsPair xs
      → format_prepare ngx_atoi memory_behind c memory (initial c vs) (query xs) ≡ ngx_ok q
      → (k : Kind) → bound k q.format_values ≡ counted k q
  unfolding format_prepare
  format_prepare-counted memory vs xs q h eq k =
      let looped =
        prepare_args-prepare_pairs ngx_atoi memory_behind c xs (length (query xs)) (initial c vs)
          (expected c) h (length-query xs) in
      let ended = prepare_pairs-IsExact xs (initial c vs) (expected c) h (initial-IsExact c vs) in
      (decided-Ready c (λ p e. IsExact p) memory
          (prepare_args ngx_atoi memory_behind c (length (query xs)) (query xs) (initial c vs)
            (expected c))
          q (subst (Finally (λ p e. IsExact p)) (sym looped) ended) eq).kept.for_kind
        k
