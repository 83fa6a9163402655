-- ===== src/JsonString/Spelling.antt =====
-- What json_encode_string writes, with no buffer: the spelling of each byte, and the whole literal.
use nginx_upstream_module.Common.{ℕ, Bool, Option, none, some, [], ◌∷◌, ◌++◌, Bytes, ◌≡◌, refl}
use nginx_upstream_module.JsonString.{Cursor, escaped, append_str, append_ch, append_escaped}

unfoldable pub spelled : Bool → ℕ → Bytes
spelled s ch = elim (escaped s ch) [ some e ↦ e | none ↦ ch ∷ [] ]

abbrev pub spelled_all : Bool → Bytes → Bytes
spelled_all s [] = []
spelled_all s (ch ∷ str) = spelled s ch ++ spelled_all s str

unfoldable pub literal : Bool → Bytes → Bytes
literal s str = b'"' ∷ (spelled_all s str ++ (b'"' ∷ []))

-- Both ways to append amount to one `append_str`.
pub append_escaped-spelled :
    (s : Bool) (c : Cursor) (ch : ℕ) → append_escaped s c ch ≡ append_str c (spelled s ch)
unfolding append_escaped spelled append_ch
append_escaped-spelled s c ch = go (escaped s ch)
  where
    go :
        (o : Option Bytes)
        → (elim o [ some e ↦ append_str c e | none ↦ append_ch c ch ])
          ≡ append_str c (elim o [ some e ↦ e | none ↦ ch ∷ [] ])
    go (some e) = refl
    go none = refl
