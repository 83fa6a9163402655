-- ===== src/Dml/Exact.antt =====
-- The exact counts of what is bound, where no value of the request is empty.
use nginx_upstream_module.Common.{
  true, false, [], ◌∷◌, Option, Bytes, Bool, List, ◌<◌, ◌≡◌, some, All, length, if◌then◌else◌,
  arith, none, ◌+◌, not, ap, refl, ◌&&◌, ◌*◌,
}
use nginx_upstream_module.Dml.State.{FormatValue}
use nginx_upstream_module.Dml.Prepare.{Kind, fill, is_open, behind, is_named, put, has_bytes, kind}
use nginx_upstream_module.Dml.Counts.{is_bound, bound, same}

-- A value is not bound, or has bytes.
abbrev pub IsFull : FormatValue → Type 0
IsFull v = is_bound v.value ≡ (if has_bytes v.value then 1 else 0)

slot_free :
    (o : Option Bytes) (named : Bool)
    → is_bound o ≡ (if has_bytes o then 1 else 0)
    → (not (has_bytes o) && named) ≡ true
    → is_bound o ≡ 0
slot_free none named f h = refl
slot_free (some []) named f h = omega arith
slot_free (some (b ∷ bs)) named f h = ground arith

abbrev pub Exactly : Kind → List FormatValue → Option (Kind × List FormatValue) → Type 0
Exactly k vs none = Unit {0}
Exactly k vs (some (j, ws)) = bound k ws ≡ bound k vs + same k j

abbrev pub AllFull : Option (Kind × List FormatValue) → Type 0
AllFull none = Unit {0}
AllFull (some (j, ws)) = All IsFull ws

behind-Exactly :
    (k : Kind) (v : FormatValue) (vs : List FormatValue) (f : Option (Kind × List FormatValue))
    → Exactly k vs f
    → Exactly k (v ∷ vs) (behind v f)
behind-Exactly k v vs none h = tt
behind-Exactly k v vs (some (j, ws)) h = omega arith

behind-AllFull :
    (v : FormatValue) (f : Option (Kind × List FormatValue))
    → IsFull v
    → AllFull f
    → AllFull (behind v f)
behind-AllFull v none i h = tt
behind-AllFull v (some (j, ws)) i h = (i, h)

first_fill :
    (k : Kind) (key value : Bytes) (v : FormatValue) (vs : List FormatValue) (open_here : Bool)
    → (open_here ≡ true → is_bound v.value ≡ 0)
    → Exactly k vs (fill key value vs)
    → Exactly k
        (v ∷ vs)
        (if open_here then some (kind v, put value v ∷ vs) else behind v (fill key value vs))
first_fill k key value v vs true free h =
    let z = free refl in omega (arith, ap (λ n. same k (kind v) * n) z)
first_fill k key value v vs false free h = behind-Exactly k v vs (fill key value vs) h

pub fill-Exactly :
    (k : Kind) (key value : Bytes) (vs : List FormatValue)
    → All IsFull vs
    → Exactly k vs (fill key value vs)
unfolding fill is_open
fill-Exactly k key value [] i = tt
fill-Exactly k key value (v ∷ vs) (i, is) =
    first_fill k key value v vs (is_open key v) (slot_free v.value (is_named key v.name) i)
      (fill-Exactly k key value vs is)

put-IsFull : (value : Bytes) (v : FormatValue) → 0 < length value → IsFull (put value v)
put-IsFull [] v h = absurd (omega arith)
put-IsFull (b ∷ bs) v h = refl

pub fill-AllFull :
    (key value : Bytes) (vs : List FormatValue)
    → 0 < length value
    → All IsFull vs
    → AllFull (fill key value vs)
unfolding fill
fill-AllFull key value [] n i = tt
fill-AllFull key value (v ∷ vs) n (i, is) =
    elim (is_open key v)
      as (λ o.
        AllFull (if o then some (kind v, put value v ∷ vs) else behind v (fill key value vs))) [
          | true ↦ (put-IsFull value v n, is)
          | false ↦ behind-AllFull v (fill key value vs) i (fill-AllFull key value vs n is)
        ]
