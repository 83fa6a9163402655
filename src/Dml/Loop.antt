-- ===== src/Dml/Loop.antt =====
use nginx_upstream_module.Dml.State.{Prepared, Expects, Conf}
use nginx_upstream_module.Common.{
  Bytes, Option, ℕ, ◌≢◌, length, arith, ◌∷◌, ◌≤◌, suc, drop, some, ◌+◌, none, length-drop, [], zero,
}
use nginx_upstream_module.Dml.Prepare.{
  Step, Looped, going, done, resume, no_fuel, prepare_args, prepare_arg, forbidden, denied,
  Argument, take_argument,
}
use nginx_upstream_module.Url.{get_next_arg}  -- Induction over the arguments of a request.

abbrev pub After : (Prepared → Expects → Type 0) → Step → Type 0
After I (going p e) = I p e
After I forbidden = Unit {0}

abbrev pub Finally : (Prepared → Expects → Type 0) → Looped → Type 0
Finally I (done p e) = I p e
Finally I denied = Unit {0}
Finally I no_fuel = Unit {0}

pub resume-Finally :
    (I : Prepared → Expects → Type 0) (k : Prepared → Expects → Looped) (s : Step)
    → After I s
    → ((p : Prepared) (e : Expects) → I p e → Finally I (k p e))
    → Finally I (resume k s)
resume-Finally I k (going p e) i next = next p e i
resume-Finally I k forbidden i next = tt

resume_ends :
    (k : Prepared → Expects → Looped) (s : Step)
    → ((p : Prepared) (e : Expects) → k p e ≢ no_fuel)
    → resume k s ≢ no_fuel
resume_ends k (going p e) next eq = next p e eq
resume_ends k forbidden next eq = ground arith

module _ (ngx_atoi : Bytes → Option ℕ) (memory_behind : Bytes) (c : Conf) where
  next_shorter :
      (fuel it b : ℕ) (bs : Bytes)
      → length (b ∷ bs) ≤ suc fuel
      → length (drop (it + 1) (b ∷ bs)) ≤ fuel
  next_shorter fuel it b bs h = omega (arith, length-drop (it + 1) (b ∷ bs))

  -- As many steps as there are bytes are enough.
  pub prepare_args_ends :
      (fuel : ℕ) (bytes : Bytes) (p : Prepared) (e : Expects)
      → length bytes ≤ fuel
      → prepare_args ngx_atoi memory_behind c fuel bytes p e ≢ no_fuel
  unfolding prepare_args
  prepare_args_ends fuel [] p e h eq = ground arith
  prepare_args_ends zero (b ∷ bs) p e h eq = absurd (omega arith)
  prepare_args_ends (suc fuel) (b ∷ bs) p e h eq =
      let arg = get_next_arg (b ∷ bs) in
      let rest = drop (arg.it + 1) (b ∷ bs) in
      resume_ends (prepare_args ngx_atoi memory_behind c fuel rest)
        (prepare_arg ngx_atoi memory_behind c (b ∷ bs) arg p e)
        (λ p' e'. prepare_args_ends fuel rest p' e' (next_shorter fuel arg.it b bs h)) eq

  prepare_arg-After :
      (I : Prepared → Expects → Type 0)
      → ((a : Argument) (key value text : Bytes) (p : Prepared) (e : Expects)
          → I p e
          → After I (take_argument ngx_atoi memory_behind c a key value text p e))
      → (bytes : Bytes) (it : ℕ) (value : Option ℕ) (p : Prepared) (e : Expects) → I p e
      → After I (prepare_arg ngx_atoi memory_behind c bytes (record { it = it; value = value }) p e)
  unfolding prepare_arg
  prepare_arg-After I keeps bytes it none p e i = i
  prepare_arg-After I keeps bytes it (some v) p e i = keeps _ _ _ _ p e i

  -- What every argument keeps, the loop keeps.
  pub prepare_args-Finally :
      (I : Prepared → Expects → Type 0)
      → ((a : Argument) (key value text : Bytes) (p : Prepared) (e : Expects)
          → I p e
          → After I (take_argument ngx_atoi memory_behind c a key value text p e))
      → (fuel : ℕ) (bytes : Bytes) (p : Prepared) (e : Expects) → I p e
      → Finally I (prepare_args ngx_atoi memory_behind c fuel bytes p e)
  unfolding prepare_args
  prepare_args-Finally I keeps fuel [] p e i = i
  prepare_args-Finally I keeps zero (b ∷ bs) p e i = tt
  prepare_args-Finally I keeps (suc fuel) (b ∷ bs) p e i =
      let arg = get_next_arg (b ∷ bs) in
      let rest = drop (arg.it + 1) (b ∷ bs) in
      resume-Finally I (prepare_args ngx_atoi memory_behind c fuel rest)
        (prepare_arg ngx_atoi memory_behind c (b ∷ bs) arg p e)
        (prepare_arg-After I keeps (b ∷ bs) arg.it arg.value p e i)
        (λ p' e'. prepare_args-Finally I keeps fuel rest p' e')
