-- ===== src/Http/Method.antt =====
-- The method that is taken from a request's path.
use mathlib.Core.Bool.{true≢false, not}
use nginx_upstream_module.Common.{
  ℕ, Bytes, All, [], length, Bool, ◌≡◌, take, true, ◌≤◌, ◌==◌, false, arith, Option, some, ◌∷◌,
  ◌++◌, none, length-take, refl, subst, if◌then◌else◌, not,
}
use nginx_upstream_module.Http.{
  before_slash, set_method, set_from_segment, is_unset, max_method, is_empty, skip_slash,
}

-- A segment of a path that can be a method: not empty, with no `/`, and not begun by a zero byte.
pub record IsSegment (m : Bytes) : Type 0 where
  pub not_unset : is_unset m ≡ false
  pub no_slash : All (λ b. (b == b'/') ≡ false) m

before_slash-append :
    (m rest : Bytes) → All (λ b. (b == b'/') ≡ false) m → before_slash (m ++ (b'/' ∷ rest)) ≡ some m
unfolding before_slash
before_slash-append [] rest h = refl
before_slash-append (c ∷ cs) rest h = rw (h.0, before_slash-append cs rest h.1) refl

before_slash-none : (m : Bytes) → All (λ b. (b == b'/') ≡ false) m → before_slash m ≡ none
unfolding before_slash
before_slash-none [] h = refl
before_slash-none (c ∷ cs) h = rw (h.0, before_slash-none cs h.1) refl

unset_take : (m : Bytes) → is_unset (take max_method m) ≡ is_unset m
unset_take [] = refl
unset_take (c ∷ cs) = refl

empty_unset : (m : Bytes) → is_unset m ≡ false → is_empty m ≡ false
empty_unset [] h = absurd (true≢false h)
empty_unset (c ∷ cs) h = refl

-- Where no method is configured and the verb is a REST verb, a path's first segment, which is not
-- empty, has no `/` and is not begun by a zero byte, is the method, up to 127 bytes of it, whether
-- it is the whole path or more follows it.
pub set_method-segment :
    (m rest : Bytes)
    → IsSegment m
    → (set_method [] true (b'/' ∷ m) ≡ some (take max_method m))
      × (set_method [] true (b'/' ∷ (m ++ (b'/' ∷ rest))) ≡ some (take max_method m))
unfolding set_method set_from_segment
set_method-segment m rest i = (
  rw (set_method, set_from_segment, before_slash-none m i.no_slash, empty_unset m i.not_unset) refl,
  rw
      (
        set_method,
        set_from_segment,
        before_slash-append m rest i.no_slash,
        unset_take m,
        i.not_unset,
      )
      refl,
)

take_bounded : (n : ℕ) (m : Bytes) → length (take n m) ≤ n
take_bounded n m = omega (arith, length-take n m)

set_from_segment_bounded : (m : Bytes) → length (set_from_segment m) ≤ 127
unfolding set_from_segment
set_from_segment_bounded m = go (before_slash m)
  where
    go : (o : Option Bytes) → length (elim o [ none ↦ [] | some s ↦ take max_method s ]) ≤ 127
    go none = omega arith
    go (some s) = take_bounded 127 s

Short : Option Bytes → Type 0
Short none = Unit {0}
Short (some m) = length m ≤ 127

Short-if : (b : Bool) (x y : Option Bytes) → Short x → Short y → Short (if b then x else y)
Short-if true x y p q = p
Short-if false x y p q = q

Short-set_method : (method uri : Bytes) (rest : Bool) → Short (set_method method rest uri)
unfolding set_method Short
Short-set_method method uri rest = Short-if (not (is_empty method)) _ _ (take_bounded 127 method) (
    Short-if rest _ _
      (Short-if (is_empty uri) _ _ tt (
        Short-if (is_unset (set_from_segment (skip_slash uri))) _ _
          (Short-if (is_empty (skip_slash uri)) _ _ tt (take_bounded 127 (skip_slash uri)))
          (set_from_segment_bounded (skip_slash uri))))
      (omega arith))

pub length-set_method :
    (method uri m : Bytes) (rest : Bool) → set_method method rest uri ≡ some m → length m ≤ 127
unfolding Short
length-set_method method uri m rest e = subst Short e (Short-set_method method uri rest)
