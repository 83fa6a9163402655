-- ===== src/JsonString.antt =====
-- src/json_encoders.c and src/json_encoders.h: a byte string written as a JSON string into a
-- buffer of limited size.
pub mod Spelling
pub mod Bounds
pub mod RoundTrip
mod Tests
use nginx_upstream_module.Common.{
  ℕ, ◌-◌, ◌/◌, ◌%◌, ◌^◌, Bool, Option, none, some, [], ◌∷◌, ◌++◌, ltb, ◌==◌, if◌then◌else◌, length,
  get_or, Bytes, codes,
}

-- `char **buf` with `size_t *buf_len`: the bytes written so far, and the bytes still free.
pub record Cursor : Type 0 where
  pub out : Bytes
  pub room : ℕ

-- `false` is `none`: the cursor stays where it was.
pub append_str : Cursor → Bytes → Option Cursor
append_str c str =
    if ltb c.room (length str)
    then none
    else some (record { out = c.out ++ str; room = c.room - length str })

pub append_ch : Cursor → ℕ → Option Cursor
append_ch c ch = append_str c (ch ∷ [])

-- `hexchar[c >> 4]` and `hexchar[c & 0x0F]`.
pub char_to_hex : ℕ → Bytes
char_to_hex c =
    let hexchar = codes "0123456789ABCDEF" in
    get_or hexchar (c / 2 ^ 4) 0 ∷ get_or hexchar (c % 2 ^ 4) 0 ∷ []

-- The first four bytes of `hex_buf`.
pub hex_buf_init : Bytes
hex_buf_init = b'\\' ∷ b'u' ∷ b'0' ∷ b'0' ∷ []

-- The switch over one byte; `none` is `escaped == NULL`. 0x0c is '\f' and 0x08 is '\b'.
unfoldable pub escaped : Bool → ℕ → Option Bytes
escaped escape_solidus ch =
    if ch == b'\r'
    then some (b'\\' ∷ b'r' ∷ [])
    else if ch == b'\n'
    then some (b'\\' ∷ b'n' ∷ [])
    else if ch == b'\\'
    then some (b'\\' ∷ b'\\' ∷ [])
    else if ch == b'/'
    then (if escape_solidus then some (b'\\' ∷ b'/' ∷ []) else none)
    else if ch == b'"'
    then some (b'\\' ∷ b'"' ∷ [])
    else if ch == 0x0c
    then some (b'\\' ∷ b'f' ∷ [])
    else if ch == 0x08
    then some (b'\\' ∷ b'b' ∷ [])
    else if ch == b'\t'
    then some (b'\\' ∷ b't' ∷ [])
    else if ltb ch 32
    then some (hex_buf_init ++ char_to_hex ch)
    else none

-- The value returned, with `*buf` as it is left behind: on `oom` it holds what was written before.
pub data Encoded : Type 0 where
  done : Cursor → Encoded
  oom : Cursor → Encoded
  invalid_arguments : Encoded

pub append_escaped : Bool → Cursor → ℕ → Option Cursor
append_escaped escape_solidus c ch = elim (escaped escape_solidus ch) [
  | some e ↦ append_str c e
  | none ↦ append_ch c ch
]

-- The loop over `str`, and the closing quote.
pub encode_chars : Bool → Cursor → Bytes → Encoded
encode_chars escape_solidus c [] = elim (append_ch c b'"') [ some c' ↦ done c' | none ↦ oom c ]
encode_chars escape_solidus c (ch ∷ str) = elim (append_escaped escape_solidus c ch) [
  | some c' ↦ encode_chars escape_solidus c' str
  | none ↦ oom c
]

-- `buf` and `str` may be NULL.
pub json_encode_string : Option Bytes → ℕ → Option Bytes → Bool → Encoded
json_encode_string none buf_len str escape_solidus = invalid_arguments
json_encode_string (some buf) buf_len str escape_solidus =
    let start : Cursor = record { out = buf; room = buf_len } in
    if buf_len == 0 then invalid_arguments else elim (append_ch start b'"') [
      | none ↦ oom start
      | some c ↦ encode_chars escape_solidus c (elim str [ some s ↦ s | none ↦ [] ])
    ]
