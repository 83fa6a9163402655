-- ===== src/Dml/Pairs.antt =====
-- The arguments of a format as a list of keys and values.
use nginx_upstream_module.Common.{
  Bytes, ◌++◌, Option, ◌∷◌, ℕ, [], List, ◌<◌, All, length, ◌≡◌, ◌≤◌, ◌+◌, suc, ◌-◌, drop, arith, ap,
  length-append, refl, ◌∙◌, zero, take-append,
}
use nginx_upstream_module.Dml.State.{Conf, Prepared, Expects}
use nginx_upstream_module.Url.Form.{
  Pair, first, further, IsPair, first_arg, query, take-first_key, drop-first_value, further-Ends,
  drop-first, behind_further,
}
use nginx_upstream_module.Dml.Prepare.{
  prepare_arg, prepare_args, Step, Looped, take_argument, done, argument, resume, going, forbidden,
}
use nginx_upstream_module.Url.{NextArg, get_next_arg}
use nginx_upstream_module.Url.Args.{get_next_arg-splits}  -- The arguments of a format as a list of keys and values, and the exact counts of what is bound.

-- A key of a format has its `=` with it.
abbrev pub with_equals : Bytes → Bytes
with_equals key = key ++ (b'=' ∷ [])

module _ (ngx_atoi : Bytes → Option ℕ) (memory_behind : Bytes) (c : Conf) where
  abbrev pub take_pair : Pair → List Pair → Prepared → Expects → Step
  take_pair x xs p e =
      let key = with_equals x.key in
      take_argument ngx_atoi memory_behind c (argument c e key) key x.value
        ((x.value ++ further xs) ++ memory_behind) p e

  -- The reference for the loop: the pairs one after the other.
  unfoldable pub prepare_pairs : List Pair → Prepared → Expects → Looped
  prepare_pairs [] p e = done p e
  prepare_pairs (x ∷ xs) p e = resume (prepare_pairs xs) (take_pair x xs p e)

  prepare_arg-first :
      (x : Pair) (xs : List Pair) (p : Prepared) (e : Expects)
      → prepare_arg ngx_atoi memory_behind c (first x (further xs)) (first_arg x) p e
        ≡ take_pair x xs p e
  unfolding prepare_arg
  prepare_arg-first x xs p e =
      let n : length x.key + 1 + length x.value - (length x.key + 1) ≡ length x.value =
        omega arith in
      rw
        (
          n,
          take-first_key x (further xs),
          drop-first_value x (further xs),
          take-append x.value (further xs),
        )
        refl

  next_arg :
      (fuel : ℕ) (text : Bytes) (arg : NextArg) (p : Prepared) (e : Expects)
      → 0 < length text
      → get_next_arg text ≡ arg
      → prepare_args ngx_atoi memory_behind c (suc fuel) text p e
        ≡ resume
            (prepare_args ngx_atoi memory_behind c fuel (drop (arg.it + 1) text))
            (prepare_arg ngx_atoi memory_behind c text arg p e)
  unfolding prepare_args
  next_arg fuel [] arg p e h eq = absurd (omega arith)
  next_arg fuel (b ∷ bs) arg p e h eq =
      ap
        (λ a.
          resume (prepare_args ngx_atoi memory_behind c fuel (drop (a.it + 1) (b ∷ bs)))
            (prepare_arg ngx_atoi memory_behind c (b ∷ bs) a p e))
        eq

  resume_agrees :
      (f g : Prepared → Expects → Looped) (s : Step)
      → ((p : Prepared) (e : Expects) → f p e ≡ g p e)
      → resume f s ≡ resume g s
  resume_agrees f g (going p e) same = same p e
  resume_agrees f g forbidden same = refl

  -- On a query string `k=v&k=v` whose values are not empty, whose keys have neither `=` nor `&` and
  -- whose values have no `&`, with at least as much fuel as arguments, the loop takes the pairs one
  -- after the other, each with its key and `=`, its value, and the text from the value on.
  pub prepare_args-prepare_pairs :
      (xs : List Pair) (fuel : ℕ) (p : Prepared) (e : Expects)
      → All IsPair xs
      → length xs ≤ fuel
      → prepare_args ngx_atoi memory_behind c fuel (query xs) p e ≡ prepare_pairs xs p e
  unfolding prepare_args prepare_pairs
  prepare_args-prepare_pairs [] zero p e h le = refl
  prepare_args-prepare_pairs [] (suc fuel) p e h le = refl
  prepare_args-prepare_pairs (x ∷ xs) zero p e h le = absurd (omega arith)
  prepare_args-prepare_pairs (x ∷ xs) (suc fuel) p e (i, is) le =
      next_arg fuel (query (x ∷ xs)) (first_arg x) p e
        (omega (arith, length-append x.key (b'=' ∷ (x.value ++ further xs))))
        (get_next_arg-splits x.key x.value (further xs) i.key_equals i.key_ends i.value_ends
          (further-Ends xs)).0
      ∙ rw (prepare_arg-first x xs p e, drop-first x (further xs), behind_further xs)
          (resume_agrees (prepare_args ngx_atoi memory_behind c fuel (query xs)) (prepare_pairs xs)
            (take_pair x xs p e)
            (λ p' e'. prepare_args-prepare_pairs xs fuel p' e' is (omega arith)))
