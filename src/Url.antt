-- ===== src/Url.antt =====
-- URL decoding in src/ngx_http_tnt_module.c: ngx_http_tnt_tolower, ngx_http_tnt_urldecode,
-- ngx_http_tnt_unescape_uri and ngx_http_tnt_get_next_arg.
pub mod Decode
pub mod Args
pub mod Query
pub mod Form
pub mod Pairs
mod Tests
use Prim.Native.Nat.{bit_xor}
use nginx_upstream_module.Common.{
  true, false, ℕ, if◌then◌else◌, Bool, Bytes, Option, leb, ◌&&◌, ◌==◌, ◌∷◌, some, none, ◌||◌, ◌-◌,
  ◌*◌, ◌+◌, ◌%◌, [], ◌^◌, ◌++◌,
}

unfoldable pub tolower : ℕ → ℕ
tolower c = if leb b'A' c && leb c b'Z' then bit_xor c 0x20 else c

-- The C library's isxdigit.
unfoldable pub isxdigit : ℕ → Bool
isxdigit c =
    (leb b'0' c && leb c b'9') || ((leb b'A' c && leb c b'F') || (leb b'a' c && leb c b'f'))

-- What a digit in lower case stands for.
unfoldable pub digit_value : ℕ → ℕ
digit_value c = if leb c b'9' then c - b'0' else (c - b'a') + 10

-- `%` and two bytes: the byte that they stand for in a u_char, or all three.
unfoldable pub unescaped : ℕ → ℕ → ℕ → Bytes
unescaped c c2 c3 =
    if isxdigit c2 && isxdigit c3
    then ((16 * digit_value (tolower c2) + digit_value (tolower c3)) % 2 ^ 8) ∷ []
    else c ∷ c2 ∷ c3 ∷ []

abbrev pub plain : ℕ → ℕ
plain c = if c == b'+' then b' ' else c

-- `dst` for `src`. A `%` with fewer than two bytes behind it stands for itself.
unfoldable pub urldecode : Bytes → Bytes
urldecode [] = []
urldecode (c ∷ []) = plain c ∷ []
urldecode (c ∷ c2 ∷ []) = plain c ∷ plain c2 ∷ []
urldecode (c ∷ c2 ∷ c3 ∷ src) = elim (c == b'%') [
  | true ↦ unescaped c c2 c3 ++ urldecode src
  | false ↦ plain c ∷ urldecode (c2 ∷ c3 ∷ src)
]

-- Without memory `dst.data` is NULL: `none` is NGX_ERROR.
abbrev pub unescape_uri : Bool → Bytes → Option Bytes
unescape_uri memory src = if memory then some (urldecode src) else none

-- ngx_http_tnt_next_arg_t, as offsets from the first byte.
pub record NextArg : Type 0 where
  pub it : ℕ
  pub value : Option ℕ

-- The loop at the offset `it`: only the first `=` counts.
unfoldable pub get_next_arg_from : ℕ → Option ℕ → Bytes → NextArg
get_next_arg_from it value [] = record { it = it; value = value }
get_next_arg_from it none (c ∷ cs) =
    if c == b'='
    then get_next_arg_from (it + 1) (some (it + 1)) cs
    else if c == b'&'
    then record { it = it; value = none }
    else get_next_arg_from (it + 1) none cs
get_next_arg_from it (some v) (c ∷ cs) =
    if c == b'&' then record { it = it; value = some v } else get_next_arg_from (it + 1) (some v) cs

abbrev pub get_next_arg : Bytes → NextArg
get_next_arg bytes = get_next_arg_from 0 none bytes
