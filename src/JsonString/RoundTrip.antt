-- ===== src/JsonString/RoundTrip.antt =====
-- A reader of JSON strings after RFC 8259, and what it makes of a literal that json_encode_string
-- wrote. The reader knows nothing of the writer.
use nginx_upstream_module.Common.{
  ℕ, ◌/◌, ◌%◌, codes, get_or, zero, suc, ◌+◌, ◌-◌, ◌*◌, ◌<◌, ◌≡◌, refl, ◌∙◌, arith, Bool, true,
  false, ◌&&◌, ◌||◌, Option, none, some, [], ◌∷◌, ◌++◌, append_assoc, append-nil, Bytes, length,
  All, ltb, leb, ◌==◌, if◌then◌else◌, passes, test-passes, ◌≤◌,
}
use nginx_upstream_module.JsonString.{
  Cursor, done, json_encode_string, escaped, char_to_hex, hex_buf_init,
}
use nginx_upstream_module.JsonString.Spelling.{spelled, spelled_all, literal}
use nginx_upstream_module.JsonString.Bounds.{json_encode_string-literal}

-- Inside the string, behind a backslash, or with so many hexadecimal digits still to read.
data Mode : Type 0 where
  plain backslash : Mode
  hex : ℕ → ℕ → Mode

data Move : Type 0 where
  next : Mode → Bytes → Move
  close bad : Move

hex_value : ℕ → Option ℕ
hex_value c =
    if leb b'0' c && leb c b'9'
    then some (c - b'0')
    else if leb b'A' c && leb c b'F'
    then some (c - b'A' + 10)
    else if leb b'a' c && leb c b'f'
    then some (c - b'a' + 10)
    else none

-- The byte that a letter behind a backslash stands for.
control : ℕ → Option ℕ
control c =
    if c == b'n'
    then some 0x0a
    else if c == b'r'
    then some 0x0d
    else if c == b't'
    then some 0x09
    else if c == b'b'
    then some 0x08
    else if c == b'f'
    then some 0x0c
    else if c == b'"' || c == b'\\' || c == b'/'
    then some c
    else none

-- The last digit of \uXXXX; a code point past ASCII is not needed here, and is refused.
move_hex : ℕ → ℕ → Bytes → Move
move_hex zero v acc = if ltb v 128 then next plain (acc ++ (v ∷ [])) else bad
move_hex (suc n) v acc = next (hex n v) acc

move : Mode → Bytes → ℕ → Move
move plain acc c =
    if c == b'"'
    then close
    else if c == b'\\'
    then next backslash acc
    else if ltb c 32
    then bad
    else next plain (acc ++ (c ∷ []))
move backslash acc c =
    if c == b'u'
    then next (hex 3 0) acc
    else elim (control c) [ some b ↦ next plain (acc ++ (b ∷ [])) | none ↦ bad ]
move (hex n v) acc c = elim (hex_value c) [ some d ↦ move_hex n (v * 16 + d) acc | none ↦ bad ]

read : Mode → Bytes → Bytes → Option (Bytes × Bytes)
read m acc [] = none
read m acc (c ∷ cs) = elim (move m acc c) [
  | next m' acc' ↦ read m' acc' cs
  | close ↦ some (acc, cs)
  | bad ↦ none
]

-- The string and what follows it.
pub read_json_string : Bytes → Option (Bytes × Bytes)
read_json_string [] = none
read_json_string (c ∷ cs) = if c == b'"' then read plain [] cs else none

-- The digit that the writer takes from its table is read back.
digit : ℕ → ℕ
digit d = get_or (codes "0123456789ABCDEF") d 0

reads_digit : ℕ → Bool
reads_digit d = elim (hex_value (digit d)) [ some v ↦ v == d | none ↦ false ]

digit_table : passes reads_digit 16 ≡ true
unfolding passes reads_digit hex_value digit
digit_table = refl

hex_value-digit : (d : ℕ) → d < 16 → hex_value (digit d) ≡ some d
unfolding reads_digit
hex_value-digit d h = ground (arith, test-passes reads_digit 16 d h digit_table)

char_to_hex-digit : (c : ℕ) → char_to_hex c ≡ digit (c / 16) ∷ digit (c % 16) ∷ []
unfolding char_to_hex digit
char_to_hex-digit c = refl

hex_value_zero : hex_value b'0' ≡ some 0
unfolding hex_value
hex_value_zero = refl

-- Two digits behind "\u00".
read_hex :
    (ch : ℕ) (acc rest : Bytes)
    → ch < 32
    → read plain acc ((hex_buf_init ++ char_to_hex ch) ++ rest) ≡ read plain (acc ++ (ch ∷ [])) rest
unfolding read move move_hex hex_buf_init
read_hex ch acc rest h = rw char_to_hex-digit (
    ground (
      arith,
      hex_value_zero,
      hex_value-digit (ch / 16) (omega arith),
      hex_value-digit (ch % 16) (omega arith),
    ))

read-spelled :
    (s : Bool) (ch : ℕ) (acc rest : Bytes)
    → ch < 256
    → read plain acc (spelled s ch ++ rest) ≡ read plain (acc ++ (ch ∷ [])) rest
unfolding read move spelled escaped control
read-spelled s ch acc rest h = ground (arith, read_hex ch acc rest)

read-spelled_all :
    (s : Bool) (str acc rest : Bytes)
    → All (λ b. b < 256) str
    → read plain acc (spelled_all s str ++ (b'"' ∷ rest)) ≡ some (acc ++ str, rest)
unfolding read move
read-spelled_all s [] acc rest h = rw append-nil
read-spelled_all s (ch ∷ str) acc rest h = rw (append_assoc (spelled s ch)) (
    read-spelled s ch acc _ h.0
    ∙ read-spelled_all s str (acc ++ (ch ∷ [])) rest h.1
    ∙ rw append_assoc)

-- A JSON string written by json_encode_string into an empty buffer reads back as the bytes that it
-- was given, with solidus escaping or without.
pub read_json_string-literal :
    (s : Bool) (str rest : Bytes)
    → All (λ b. b < 256) str
    → read_json_string (literal s str ++ rest) ≡ some (str, rest)
unfolding read_json_string literal
read_json_string-literal s str rest h =
    rw (append_assoc (spelled_all s str)) (read-spelled_all s str [] rest h)

-- Bytes that json_encode_string writes into an empty buffer, where their literal fits it, are read
-- back by a JSON string reader as the bytes that were given, whatever follows the literal, with
-- solidus escaping or without.
pub read-json_encode_string :
    (s : Bool) (buf_len : ℕ) (str rest : Bytes)
    → All (λ b. b < 256) str
    → length (literal s str) ≤ buf_len
    → (c : Cursor) × (json_encode_string (some []) buf_len (some str) s ≡ done c)
      × (read_json_string (c.out ++ rest) ≡ some (str, rest))
read-json_encode_string s buf_len str rest h fits =
    (_, json_encode_string-literal s [] buf_len str fits, read_json_string-literal s str rest h)
