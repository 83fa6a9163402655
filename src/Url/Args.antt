-- ===== src/Url/Args.antt =====
-- One argument of a query string.
use nginx_upstream_module.Common.{
  refl, ℕ, Bytes, All, ◌∷◌, some, none, ◌==◌, ◌++◌, ◌≡◌, false, true, length, ◌+◌, arith, [], suc,
  ◌∙◌,
}
use nginx_upstream_module.Url.{get_next_arg_from, get_next_arg}

-- No byte of `bs` is `x`.
abbrev pub Without : ℕ → Bytes → Type 0
Without x bs = All (λ b. (b == x) ≡ false) bs

-- What ends an argument: nothing more, or `&`.
abbrev pub Ends : Bytes → Type 0
Ends [] = Unit {0}
Ends (c ∷ cs) = (c == b'&') ≡ true

in_value :
    (it v : ℕ) (value rest : Bytes)
    → Without b'&' value
    → Ends rest
    → get_next_arg_from it (some v) (value ++ rest)
      ≡ record { it = it + length value; value = some v }
unfolding get_next_arg_from
in_value it v [] [] h e = let z : it + 0 ≡ it = omega arith in rw z refl
in_value it v [] (c ∷ cs) h e = let z : it + 0 ≡ it = omega arith in rw (e, z) refl
in_value it v (b ∷ bs) rest h e =
    let z : it + 1 + length bs ≡ it + suc (length bs) = omega arith in
    rw (h.0) (in_value (it + 1) v bs rest h.1 e ∙ rw z refl)

in_key :
    (it : ℕ) (key value rest : Bytes)
    → Without b'=' key
    → Without b'&' key
    → Without b'&' value
    → Ends rest
    → get_next_arg_from it none (key ++ (b'=' ∷ (value ++ rest)))
      ≡ record { it = it + length key + 1 + length value; value = some (it + length key + 1) }
unfolding get_next_arg_from
in_key it [] value rest h k v e =
    let z : it + 0 ≡ it = omega arith in rw z (in_value (it + 1) (it + 1) value rest v e)
in_key it (b ∷ bs) value rest h k v e =
    let z : it + 1 + length bs ≡ it + suc (length bs) = omega arith in
    rw (h.0, k.0) (in_key (it + 1) bs value rest h.1 k.1 v e ∙ rw z refl)

not_equals : (c : ℕ) → (c == b'&') ≡ true → (c == b'=') ≡ false
not_equals c e = ground arith

in_flag :
    (it : ℕ) (key rest : Bytes)
    → Without b'=' key
    → Without b'&' key
    → Ends rest
    → get_next_arg_from it none (key ++ rest) ≡ record { it = it + length key; value = none }
unfolding get_next_arg_from
in_flag it [] [] h k e = let z : it + 0 ≡ it = omega arith in rw z refl
in_flag it [] (c ∷ cs) h k e = let z : it + 0 ≡ it = omega arith in rw (not_equals c e, e, z) refl
in_flag it (b ∷ bs) rest h k e =
    let z : it + 1 + length bs ≡ it + suc (length bs) = omega arith in
    rw (h.0, k.0) (in_flag (it + 1) bs rest h.1 k.1 e ∙ rw z refl)

-- Where a key has neither `=` nor `&` and a value has no `&`, and nothing or an `&` follows: of a
-- key with a value the value begins behind the first `=`, and the argument ends behind the value;
-- of a key alone there is no value, and the argument ends behind the key.
pub get_next_arg-splits :
    (key value rest : Bytes)
    → Without b'=' key
    → Without b'&' key
    → Without b'&' value
    → Ends rest
    → (get_next_arg (key ++ (b'=' ∷ (value ++ rest)))
        ≡ record { it = length key + 1 + length value; value = some (length key + 1) })
      × (get_next_arg (key ++ rest) ≡ record { it = length key; value = none })
get_next_arg-splits key value rest h k v e =
    let z : 0 + length key ≡ length key = omega arith in
    (in_key 0 key value rest h k v e ∙ rw z refl, in_flag 0 key rest h k e ∙ rw z refl)
