-- ===== src/Dml/Counts.antt =====
use mathlib.Core.List.{map}
use nginx_upstream_module.Common.{
  Option, Bytes, ℕ, List, some, ◌∷◌, ◌*◌, ◌≤◌, ◌+◌, arith, none, if◌then◌else◌, [], ◌≡◌, ap, refl,
}
use nginx_upstream_module.Dml.Prepare.{
  Kind, fill, filled, update_keys, kind, behind, is_open, upsert_tuples, tuples, put,
  format_prepare_kv,
}
use nginx_upstream_module.Dml.State.{Prepared, FormatValue, Conf}  -- The counts of the values that are bound, which the headers of the request's arrays announce.
use nginx_upstream_module.Common.{true, false}
use nginx_upstream_module.Dml.Format.{no_value, initial, Request, format_request, ngx_ok}
use nginx_upstream_module.Dml.Alike.{Alike, take_argument-spread}
use nginx_upstream_module.Dml.Ready.{format_request-Ready}

abbrev pub is_bound : Option Bytes → ℕ
is_bound none = 0
is_bound (some value) = 1

-- Of two kinds that are the same 1, otherwise 0.
abbrev pub same : Kind → Kind → ℕ
same update_keys update_keys = 1
same upsert_tuples upsert_tuples = 1
same tuples tuples = 1
same _ _ = 0

-- How many values of a kind are bound.
abbrev pub bound : Kind → List FormatValue → ℕ
bound k [] = 0
bound k (v ∷ vs) = same k (kind v) * is_bound v.value + bound k vs

abbrev pub counted : Kind → Prepared → ℕ
counted update_keys p = p.update_keys_count
counted upsert_tuples p = p.upsert_tuples_count
counted tuples p = p.tuples_count

abbrev pub Covers : Kind → List FormatValue → Option (Kind × List FormatValue) → Type 0
Covers k vs none = Unit {0}
Covers k vs (some (j, ws)) = bound k ws ≤ bound k vs + same k j

same_bound : (k j : Kind) (o : Option Bytes) → same k j * 1 ≤ same k j * is_bound o + same k j
same_bound k j none = omega arith
same_bound k j (some b) = omega arith

behind-Covers :
    (k : Kind) (v : FormatValue) (vs : List FormatValue) (f : Option (Kind × List FormatValue))
    → Covers k vs f
    → Covers k (v ∷ vs) (behind v f)
behind-Covers k v vs none h = tt
behind-Covers k v vs (some (j, ws)) h = omega (arith)

fill-Covers :
    (k : Kind) (key value : Bytes) (vs : List FormatValue) → Covers k vs (fill key value vs)
unfolding fill
fill-Covers k key value [] = tt
fill-Covers k key value (v ∷ vs) =
    elim (is_open key v)
      as (λ o.
        Covers k (v ∷ vs)
          (if o then some (kind v, put value v ∷ vs) else behind v (fill key value vs))) [
            | true ↦ omega (arith, same_bound k (kind v) v.value)
            | false ↦ behind-Covers k v vs (fill key value vs) (fill-Covers k key value vs)
          ]

pub counted_one :
    (k j : Kind) (p : Prepared) (vs : List FormatValue)
    → counted k (filled p (some (j, vs))) ≡ counted k p + same k j
counted_one update_keys update_keys p vs = refl
counted_one upsert_tuples upsert_tuples p vs = refl
counted_one tuples tuples p vs = refl
counted_one update_keys upsert_tuples p vs = omega arith
counted_one update_keys tuples p vs = omega arith
counted_one upsert_tuples update_keys p vs = omega arith
counted_one upsert_tuples tuples p vs = omega arith
counted_one tuples update_keys p vs = omega arith
counted_one tuples upsert_tuples p vs = omega arith

pub filled_values :
    (j : Kind) (p : Prepared) (vs : List FormatValue) → (filled p (some (j, vs))).format_values ≡ vs
filled_values update_keys p vs = refl
filled_values upsert_tuples p vs = refl
filled_values tuples p vs = refl

filled-Counted :
    (k : Kind) (p : Prepared) (f : Option (Kind × List FormatValue))
    → bound k p.format_values ≤ counted k p
    → Covers k p.format_values f
    → bound k (filled p f).format_values ≤ counted k (filled p f)
filled-Counted k p none h f = h
filled-Counted k p (some (j, vs)) h f =
    omega (arith, counted_one k j p vs, ap (bound k) (filled_values j p vs))

pub bound-initial : (k : Kind) (vs : List FormatValue) → bound k (map no_value vs) ≡ 0
bound-initial k [] = refl
bound-initial k (v ∷ vs) = omega (arith, bound-initial k vs)

-- No more values of a kind are bound than are counted.
pub record IsCounted (p : Prepared) : Type 0 where
  pub for_kind : (k : Kind) → bound k p.format_values ≤ counted k p

pub counted-Alike : (k : Kind) (p q : Prepared) → Alike p q → counted k q ≡ counted k p
counted-Alike update_keys p q (v, n, u, t) = n
counted-Alike upsert_tuples p q (v, n, u, t) = u
counted-Alike tuples p q (v, n, u, t) = t

IsCounted-Alike : (p q : Prepared) → IsCounted p → Alike p q → IsCounted q
IsCounted-Alike p q h like = record {
  for_kind = λ k. omega (arith, h.for_kind k, counted-Alike k p q like, ap (bound k) like.0);
}

IsCounted-kv :
    (key value : Bytes) (p : Prepared) → IsCounted p → IsCounted (format_prepare_kv key value p)
IsCounted-kv key value p h = record {
  for_kind = λ k.
      filled-Counted k p (fill key value p.format_values) (h.for_kind k)
        (fill-Covers k key value p.format_values);
}

IsCounted-initial : (c : Conf) (vs : List FormatValue) → IsCounted (initial c vs)
IsCounted-initial c vs = record { for_kind = λ k. omega (arith, bound-initial k vs) }

-- Of any request that is prepared, no more values of each kind are bound than its count says.
pub format_request-IsCounted :
    (ngx_atoi : Bytes → Option ℕ) (memory_behind : Bytes) (c : Conf) (r : Request) (q : Prepared)
    → format_request ngx_atoi memory_behind c r ≡ ngx_ok q
    → IsCounted q
format_request-IsCounted ngx_atoi memory_behind c r q eq =
    (format_request-Ready ngx_atoi memory_behind c (λ p e. IsCounted p)
      (λ a key value text p e h.
        take_argument-spread ngx_atoi memory_behind c (λ p e. IsCounted p) p e key value
          (λ q e'. IsCounted-Alike p q h) (IsCounted-kv key value p h) a text)
      (λ vs. IsCounted-initial c vs) r q eq).kept
