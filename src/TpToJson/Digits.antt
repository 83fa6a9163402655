-- ===== src/TpToJson/Digits.antt =====
-- The decimal digits of a number.
use nginx_upstream_module.Common.{
  ℕ, [], Bytes, suc, ◌≤◌, ◌<◌, Option, ◌+◌, ◌⊎◌, ◌++◌, length, inl, ◌^◌, some, ◌∷◌, ◌/◌, ◌≡◌, arith,
  leb, ◌*◌, Bool-cases, inr, ap, zero, ◌&&◌, true, ltb, sym, ◌-◌, ◌∙◌, length-append, append-nil,
  none, ◌%◌, false, refl, append_assoc,
}
use nginx_upstream_module.TpToJson.Internal.{decimal_of, decimal}

-- The number that digits stand for, behind the number of those before them.
unfoldable pub read_digits : ℕ → Bytes → Option ℕ
read_digits acc [] = some acc
read_digits acc (c ∷ cs) = elim (leb b'0' c && leb c b'9') [
  | true ↦ read_digits (acc * 10 + (c - b'0')) cs
  | false ↦ none
]

read_digits-digit :
    (acc d : ℕ) (cs : Bytes)
    → d < 10
    → read_digits acc ((b'0' + d) ∷ cs) ≡ read_digits (acc * 10 + d) cs
unfolding read_digits
read_digits-digit acc d cs h =
    let low : leb b'0' (b'0' + d) ≡ true = ground arith in
    let high : leb (b'0' + d) b'9' ≡ true = ground arith in
    let same : b'0' + d - b'0' ≡ d = omega arith in rw (read_digits, low, high, same) refl

-- How often ten has to divide a number before one digit is left of it.
abbrev pub Below10 : ℕ → ℕ → Type 0
Below10 zero n = ⊥
Below10 (suc k) n = (n < 10) ⊎ Below10 k (n / 10)

read_digits-decimal_of :
    (k n : ℕ) (rest : Bytes)
    → Below10 k n
    → read_digits 0 (decimal_of k n ++ rest) ≡ read_digits n rest
unfolding decimal_of
read_digits-decimal_of zero n rest h = absurd h
read_digits-decimal_of (suc k) n rest h = elim (Bool-cases (ltb n 10)) [
  | inl e ↦
      let same : 0 + n ≡ n = omega arith in
      rw (decimal_of, e) (read_digits-digit 0 n rest (ground arith) ∙ rw same refl)
  | inr e ↦
      let more : Below10 k (n / 10) = elim h [ inl small ↦ absurd (ground arith) | inr b ↦ b ] in
      let whole : n / 10 * 10 + n % 10 ≡ n = omega arith in
      rw (decimal_of, e, append_assoc (decimal_of k (n / 10)) ((b'0' + n % 10) ∷ []) rest)
        (read_digits-decimal_of k (n / 10) ((b'0' + n % 10) ∷ rest) more
          ∙ read_digits-digit (n / 10) (n % 10) rest (omega arith)
          ∙ rw whole refl)
]

length-decimal_of-le : (k n : ℕ) → length (decimal_of k n) ≤ k
unfolding decimal_of
length-decimal_of-le zero n = omega arith
length-decimal_of-le (suc k) n = elim (Bool-cases (ltb n 10)) [
  | inl e ↦ rw (decimal_of, e) (omega arith)
  | inr e ↦
      rw (decimal_of, e)
        (omega (
          arith,
          length-append (decimal_of k (n / 10)) ((b'0' + n % 10) ∷ []),
          length-decimal_of-le k (n / 10),
        ))
]

Below10-mono : (k n m : ℕ) → m ≤ n → Below10 k n → Below10 k m
Below10-mono zero n m h b = b
Below10-mono (suc k) n m h (inl s) = inl (omega arith)
Below10-mono (suc k) n m h (inr b) = inr (Below10-mono k (n / 10) (m / 10) (omega arith) b)

-- The digits written for a number below 2^64 are read back as the number, and there are at most
-- twenty of them.
pub read_digits-decimal :
    (n : ℕ) → n < 2 ^ 64 → (read_digits 0 (decimal n) ≡ some n) × (length (decimal n) ≤ 20)
unfolding read_digits
read_digits-decimal n h = (
  ap (read_digits 0) (sym (append-nil (decimal n)))
      ∙ read_digits-decimal_of 20 n [] (
          Below10-mono 20 (2 ^ 64 - 1) n (omega arith) (
            inr (
              inr (
                inr (
                  inr (
                    inr (
                      inr (
                        inr (
                          inr (
                            inr (
                              inr (
                                inr (
                                  inr (
                                    inr (
                                      inr (
                                        inr (
                                          inr
                                            (inr (inr (inr (inl (omega arith)))))))))))))))))))))),
  length-decimal_of-le 20 n,
)
