-- ===== src/JsonToTp/Machine/Pieces.antt =====
-- The parser that is given its input in pieces.
use nginx_upstream_module.Tp.{TpLib}
use nginx_upstream_module.Common.{
  ℕ, Bool, List, ◌++◌, ◌≡◌, ◌∷◌, true, subst, false, sym, ap, [], refl,
}
use nginx_upstream_module.JsonToTp.Machine.{run, Event, callback}
use nginx_upstream_module.JsonToTp.State.{Ctx, continue, Outcome, cancel, fault}
use mathlib.Core.Bool.{true≢false}
use nginx_upstream_module.JsonToTp.Machine.Keeps.{Keeps, keeps_continue}
use nginx_upstream_module.JsonToTp.Machine.Entered.{run-Keeps}

abbrev is_continue : Outcome → Bool
is_continue (continue s) = true
is_continue (cancel s) = false
is_continue fault = false

module _ (lib : TpLib) (realloc : ℕ → Bool) where
  -- A run over two sequences that goes on has gone on behind the first.
  pub run-append :
      (es fs : List Event) (s s' : Ctx)
      → run lib realloc (es ++ fs) s ≡ continue s'
      → (between : Ctx) × (run lib realloc es s ≡ continue between)
        × (run lib realloc fs between ≡ continue s')
  unfolding run
  run-append [] fs s s' h = (s, refl, h)
  run-append (e ∷ es) fs s s' h = go (callback lib realloc e s) (λ u. run-append es fs u s') h
    where
      go :
          (o : Outcome)
          → ((u : Ctx)
              → run lib realloc (es ++ fs) u ≡ continue s'
              → (between : Ctx) × (run lib realloc es u ≡ continue between)
                × (run lib realloc fs between ≡ continue s'))
          → elim o [
            | continue u ↦ run lib realloc (es ++ fs) u
            | cancel u ↦ cancel u
            | fault ↦ fault
          ]
            ≡ continue s'
          → (between : Ctx) × (elim o [
            | continue u ↦ run lib realloc es u
            | cancel u ↦ cancel u
            | fault ↦ fault
          ]
              ≡ continue between)
            × (run lib realloc fs between ≡ continue s')
      go (continue u) rest e = rest u e
      go (cancel u) rest e = absurd (true≢false (sym (ap is_continue e)))
      go fault rest e = absurd (true≢false (sym (ap is_continue e)))

  flag : (b : Bool) (s : Ctx) → Keeps b (continue s) → s.transcode_first_enter ≡ b
  flag b s (keeps_continue _ e) = e

  pub run_entered :
      (es : List Event) (s s' : Ctx)
      → run lib realloc es s ≡ continue s'
      → s'.transcode_first_enter ≡ s.transcode_first_enter
  run_entered es s s' h =
      flag s.transcode_first_enter s'
        (subst (Keeps s.transcode_first_enter) h (run-Keeps lib realloc es s))
