-- ===== src/Url/Decode.antt =====
-- Decoding against percent encoding, and within its buffer.
use mathlib.Core.Bool.{true≢false}
use nginx_upstream_module.Common.{
  inl, inr, true, false, Bool-cases, ℕ, Bool, passes, length, Bytes, ◌≡◌, ◌<◌, if◌then◌else◌, ◌≤◌,
  leb, ◌∷◌, true, ◌/◌, false, ◌==◌, ◌&&◌, arith, ◌++◌, All, ◌+◌, ◌%◌, refl, length-append, [], ◌-◌,
  ap, test-passes, ==_iff, ◌∙◌, ◌*◌, ap₂, ◌^◌, sym,
}
use nginx_upstream_module.Url.{unescaped, urldecode, isxdigit, plain, digit_value, tolower}

-- The fit of `unescaped` in the three bytes that it is read from.
length-unescaped : (c c2 c3 : ℕ) → length (unescaped c c2 c3) ≤ 3
unfolding unescaped
length-unescaped c c2 c3 = ground arith

urldecode-plain :
    (c : ℕ) (src : Bytes) → (c == b'%') ≡ false → urldecode (c ∷ src) ≡ plain c ∷ urldecode src
unfolding urldecode
urldecode-plain c [] h = refl
urldecode-plain c (c2 ∷ []) h = refl
urldecode-plain c (c2 ∷ c3 ∷ src) h = rw (urldecode, h) refl

urldecode-unescaped :
    (c c2 c3 : ℕ) (src : Bytes)
    → (c == b'%') ≡ true
    → urldecode (c ∷ c2 ∷ c3 ∷ src) ≡ unescaped c c2 c3 ++ urldecode src
unfolding urldecode
urldecode-unescaped c c2 c3 src h = rw (urldecode, h) refl

-- A decoded text is never longer than the text it is decoded from, which is the size of its buffer.
pub length-urldecode : (src : Bytes) → length (urldecode src) ≤ length src
unfolding urldecode
length-urldecode [] = omega arith
length-urldecode (c ∷ []) = omega arith
length-urldecode (c ∷ c2 ∷ []) = omega arith
length-urldecode (c ∷ c2 ∷ c3 ∷ src) = elim (Bool-cases (c == b'%')) [
  | inl e ↦ omega (
    arith,
    ap length (urldecode-unescaped c c2 c3 src e),
    length-append (unescaped c c2 c3) (urldecode src),
    length-unescaped c c2 c3,
    length-urldecode src,
  )
  | inr e ↦
      omega
        (arith, ap length (urldecode-plain c (c2 ∷ c3 ∷ src) e), length-urldecode (c2 ∷ c3 ∷ src))
]

-- A digit of a percent encoding, in upper case or in lower case.
unfoldable pub hex_digit : Bool → ℕ → ℕ
hex_digit upper d = if leb d 9 then b'0' + d else if upper then b'A' + (d - 10) else b'a' + (d - 10)

-- Bytes that `keep` holds of stay as they are, spaces may become `+`, and the others are escaped.
abbrev pub percent_encode : Bool → (ℕ → Bool) → Bytes → Bytes
percent_encode upper keep [] = []
percent_encode upper keep (b ∷ bs) =
    if keep b
    then b ∷ percent_encode upper keep bs
    else b'%' ∷ hex_digit upper (b / 16) ∷ hex_digit upper (b % 16) ∷ percent_encode upper keep bs

abbrev reads_digit : Bool → ℕ → Bool
reads_digit upper d = isxdigit (hex_digit upper d) && digit_value (tolower (hex_digit upper d)) == d

digits_read : (upper : Bool) → passes (reads_digit upper) 16 ≡ true
unfolding passes hex_digit isxdigit tolower digit_value
digits_read true = refl
digits_read false = refl

and_true : (a b : Bool) → (a && b) ≡ true → (a ≡ true) × (b ≡ true)
and_true true b h = (refl, h)
and_true false b h = absurd (true≢false (sym h))

hex_digit-reads :
    (upper : Bool) (d : ℕ)
    → d < 16
    → (isxdigit (hex_digit upper d) ≡ true) × (digit_value (tolower (hex_digit upper d)) ≡ d)
hex_digit-reads upper d h =
    let both = and_true _ _ (test-passes (reads_digit upper) 16 d h (digits_read upper)) in
    (both.0, (==_iff _ d).0 both.1)

differs : (keep : ℕ → Bool) (b x : ℕ) → keep b ≡ true → keep x ≡ false → (b == x) ≡ false
differs keep b x k n = elim (Bool-cases (b == x)) [
  | inl e ↦ let same : b ≡ x = (==_iff b x).0 e in absurd (true≢false (sym k ∙ ap keep same ∙ n))
  | inr e ↦ e
]

pub unescaped-hex_digit :
    (upper : Bool) (b : ℕ)
    → b < 256
    → unescaped b'%' (hex_digit upper (b / 16)) (hex_digit upper (b % 16)) ≡ b ∷ []
unfolding unescaped
unescaped-hex_digit upper b h =
    let high = hex_digit-reads upper (b / 16) (omega arith) in
    let low = hex_digit-reads upper (b % 16) (omega arith) in
    let whole : (16 * (b / 16) + b % 16) % 2 ^ 8 ≡ b = omega arith in
    rw (high.0, low.0, high.1, low.1, whole) refl

plain_kept : (b : ℕ) → (b == b'+') ≡ false → plain b ≡ b
plain_kept b h = rw h refl

-- Bytes that are percent-encoded, with digits in upper or in lower case, whatever bytes but `%` and
-- `+` the encoding leaves as they are, are decoded to themselves.
pub urldecode-percent_encode :
    (upper : Bool) (keep : ℕ → Bool) (bs : Bytes)
    → keep b'%' ≡ false
    → keep b'+' ≡ false
    → All (λ b. b < 256) bs
    → urldecode (percent_encode upper keep bs) ≡ bs
urldecode-percent_encode upper keep [] p q h = unfold urldecode in refl
urldecode-percent_encode upper keep (b ∷ bs) p q h = elim (Bool-cases (keep b)) [
  | inl e ↦ rw e (
      urldecode-plain b (percent_encode upper keep bs) (differs keep b b'%' e p)
      ∙ ap₂ (λ x xs. x ∷ xs) (plain_kept b (differs keep b b'+' e q))
          (urldecode-percent_encode upper keep bs p q h.1))
  | inr e ↦ rw e (
      urldecode-unescaped b'%' _ _ (percent_encode upper keep bs) refl
      ∙ ap₂ (λ x xs. x ++ xs) (unescaped-hex_digit upper b h.0)
          (urldecode-percent_encode upper keep bs p q h.1))
]
