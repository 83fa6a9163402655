-- ===== src/TpToJson/Faults.antt =====
-- What a client reads of a reply with an error.
use mathlib.Core.Option
use nginx_upstream_module.Common.{
  ℕ, [], ◌∷◌, ◌++◌, ◌≡◌, ◌≢◌, ◌<◌, ◌≤◌, ◌+◌, ◌-◌, ◌^◌, ◌==◌, ◌∙◌, Bytes, Bool, All, Option, some,
  none, false, ap, refl, arith, codes, length, length-append, append_assoc, if◌then◌else◌, inl, inr,
  Bool-cases, ltb, subst,
}
use nginx_upstream_module.Common.Int.{ℤ, pos, minus}
use nginx_upstream_module.TpToJson.Codec.{
  Unpack, TpReply, reply_json, error_text, up_to_zero, code_conv, to_int,
}
use nginx_upstream_module.TpToJson.Digits.{read_digits, read_digits-decimal}
use nginx_upstream_module.TpToJson.Internal.{decimal, signed_decimal, decimal_of}
use nginx_upstream_module.TpToJson.Reply.{reply_json-error}

-- A number with or without a sign.
unfoldable pub read_signed : Bytes → Option ℤ
read_signed [] = none
read_signed (c ∷ cs) =
    if c == b'-'
    then Option.map minus (read_digits 0 cs)
    else Option.map pos (read_digits 0 (c ∷ cs))

-- The code that is shown for one of Tarantool: 0 for 0, JSON-RPC's code for a method that does not
-- exist where there is no such procedure, a negative number for any other code of 31 bits, and the
-- complement, which is negative already, for what does not fit an int.
pub data ShownAs : ℕ → ℤ → Type 0 where
  no_code : ShownAs 0 (pos 0)
  no_such_procedure : ShownAs 32801 (minus 32601)
  negated : (c : ℕ) → 0 < c → c < 2 ^ 31 → c ≢ 32801 → ShownAs c (minus c)
  complement : (c : ℕ) → 2 ^ 31 ≤ c → c < 2 ^ 32 → ShownAs c (minus (2 ^ 32 - c))

up_to_zero-All : (m : Bytes) → All (λ c. c ≢ 0) m → up_to_zero m ≡ m
up_to_zero-All [] h = refl
up_to_zero-All (c ∷ cs) (h, hs) =
    let other : (c == 0) ≡ false = ground arith in rw other (ap (◌∷◌ c) (up_to_zero-All cs hs))

read_signed-minus :
    (n : ℕ) → 0 < n → n < 2 ^ 64 → read_signed (signed_decimal (minus n)) ≡ some (minus n)
unfolding read_signed
read_signed-minus n h k =
    let e : n - 1 + 1 ≡ n = omega arith in rw e (ap (Option.map minus) (read_digits-decimal n k).0)

length-signed : (n : ℕ) → 0 < n → n < 2 ^ 64 → length (signed_decimal (minus n)) ≤ 21
length-signed n h k =
    let e : n - 1 + 1 ≡ n = omega arith in rw e (omega (arith, (read_digits-decimal n k).1))

-- What is to be known of a converted code.
abbrev Converted : ℕ → ℤ → Type 0
Converted code shown =
    ShownAs code shown
    × (read_signed (signed_decimal shown) ≡ some shown)
    × (length (signed_decimal shown) ≤ 21)

negative_code :
    (code n : ℕ) → ShownAs code (minus n) → 0 < n → n < 2 ^ 64 → Converted code (minus n)
negative_code code n s h k = (s, read_signed-minus n h k, length-signed n h k)

positive_code :
    (code : ℕ) → code < 2 ^ 31 → (shown : ℤ) × Converted code shown × (code_conv (pos code) ≡ shown)
unfolding code_conv read_signed read_digits decimal_of
positive_code code h = elim (Bool-cases (code == 0)) [
  | inl zero_ ↦
      let none_ : 0 ≡ code = ground arith in
      (pos 0, subst (λ c. Converted c (pos 0)) none_ (no_code, refl, omega arith), rw zero_ refl)
  | inr some_ ↦ elim (Bool-cases (code == 32801)) [
    | inl e ↦
        let is : 32801 ≡ code = ground arith in
        (
          minus 32601,
          subst (λ c. Converted c (minus 32601)) is
              (negative_code 32801 32601 no_such_procedure (omega arith) (omega arith)),
          rw (some_, e) refl,
        )
    | inr e ↦ (
      minus code,
      negative_code code code (negated code (ground arith) h (λ q. absurd (ground arith)))
          (ground arith) (omega arith),
      rw (some_, e) refl,
    )
  ]
]

code_conv-ShownAs :
    (code : ℕ)
    → code < 2 ^ 32
    → (shown : ℤ) × Converted code shown × (code_conv (to_int code) ≡ shown)
unfolding code_conv
code_conv-ShownAs code h = elim (Bool-cases (ltb code (2 ^ 31))) [
  | inl small ↦ let p = positive_code code (ground arith) in (p.0, p.1, rw small p.2)
  | inr large ↦
      let e : 2 ^ 32 - 1 - code ≡ 2 ^ 32 - code - 1 = omega arith in
      (
        minus (2 ^ 32 - code),
        negative_code code (2 ^ 32 - code) (complement code (ground arith) h) (omega arith)
            (omega arith),
        rw (large, e) refl,
      )
]

-- The text of an error, with its number and its code as they are printed.
abbrev pub fault_text : Bytes → Bytes → Bytes → Bytes
fault_text number message code =
    codes "{\"id\":"
    ++ (number
        ++ (codes ",\"error\":{\"message\":\""
            ++ (message ++ (codes "\",\"code\":" ++ (code ++ codes "}}")))))

closed :
    (number message code : Bytes)
    → (codes "{\"id\":"
          ++ (number
              ++ (codes ",\"error\":{\"message\":\""
                  ++ (message ++ (codes "\",\"code\":" ++ (code ++ codes "}"))))))
        ++ (b'}' ∷ [])
      ≡ fault_text number message code
closed number message code =
    rw
      (
        append_assoc number
            (codes ",\"error\":{\"message\":\""
              ++ (message ++ (codes "\",\"code\":" ++ (code ++ codes "}"))))
            (b'}' ∷ []),
        append_assoc message (codes "\",\"code\":" ++ (code ++ codes "}")) (b'}' ∷ []),
        append_assoc code (codes "}") (b'}' ∷ []),
      )
      refl

length-fault_text :
    (number message code : Bytes)
    → length (fault_text number message code) ≡ 38 + length number + length message + length code
length-fault_text number message code =
    let back = codes "\",\"code\":" ++ (code ++ codes "}}") in
    omega (
      arith,
      length-append number (codes ",\"error\":{\"message\":\"" ++ (message ++ back)),
      length-append message back,
      length-append code (codes "}}"),
    )

error_text-fault :
    (r : TpReply) (m : Bytes) (shown : ℤ)
    → All (λ c. c ≢ 0) m
    → code_conv (to_int r.code) ≡ shown
    → error_text r m ++ (b'}' ∷ []) ≡ fault_text (decimal r.sync) m (signed_decimal shown)
unfolding error_text
error_text-fault r m shown h e =
    rw (error_text, up_to_zero-All m h, e) (closed (decimal r.sync) m (signed_decimal shown))

module _ (u : Unpack) (fuel : ℕ) where
  -- Whatever options are set: a reply that is read and has an error, whose message has no zero
  -- byte, with a number of 64 bits and a code of 32 bits, in a buffer with 79 bytes more than the
  -- message, becomes `{"id":N,"error":{"message":"M","code":C}}`, with the message as it is; N is
  -- digits that are read back as the number of the reply, and C reads as 0 for the code 0, as
  -- -32601 for the code 32801, as the negated code for any other below 2^31, and as the code less
  -- 2^32 for all others.
  pub reply_json-fault :
      (input m : Bytes) (r : TpReply) (pure_result : Bool) (skip size : ℕ)
      → u.tp_reply input ≡ some r
      → r.error ≡ some m
      → All (λ c. c ≢ 0) m
      → r.sync < 2 ^ 64
      → r.code < 2 ^ 32
      → length m + 79 ≤ size
      → (number : Bytes) × (code : Bytes) × (shown : ℤ) × (reply_json u fuel pure_result skip size
            input
          ≡ some (fault_text number m code))
        × (read_digits 0 number ≡ some r.sync)
        × (read_signed code ≡ some shown)
        × ShownAs r.code shown
  reply_json-fault input m r pure_result skip size read failed_ h sync code room =
      let number = decimal r.sync in
      let digits = read_digits-decimal r.sync sync in
      let c = code_conv-ShownAs r.code code in
      let converted = c.1 in
      let text = error_text-fault r m c.0 h c.2 in
      let fits : length (error_text r m) + 1 ≤ size = omega (
        arith,
        ap length text,
        length-append (error_text r m) (b'}' ∷ []),
        length-fault_text number m (signed_decimal c.0),
        digits.1,
        converted.2,
        room,
      ) in
      (
        number,
        signed_decimal c.0,
        c.0,
        reply_json-error u fuel input m r pure_result skip size read failed_ fits ∙ ap some text,
        digits.0,
        converted.1,
        converted.0,
      )
