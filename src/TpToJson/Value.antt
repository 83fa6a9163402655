-- ===== src/TpToJson/Value.antt =====
-- MessagePack values: what msgpuck reads for them, and the JSON text that stands for them.
use nginx_upstream_module.Common.{
  ℕ, Bytes, Bool, suc, List, ◌∷◌, true, if◌then◌else◌, codes, false, ◌++◌, [], ◌||◌, ◌&&◌, not,
}
use nginx_upstream_module.TpToJson.State.{Token, Formats}
use nginx_upstream_module.Common.Int.{ℤ}
use Prim.Native.Nat.{max}
use nginx_upstream_module.JsonString.Spelling.{literal}
use nginx_upstream_module.TpToJson.Internal.{decimal, signed_decimal}

-- The keys of a JSON object are texts; integers are written as texts.
pub data Key : Type 0 where
  str : Bytes → Key
  uint : ℕ → Key
  int : ℤ → Key

mutual
  pub data Value : Type 0 where
    nil : Value
    bool : Bool → Value
    uint : ℕ → Value
    int : ℤ → Value
    float double : ℕ → Value
    str bin : Bytes → Value
    array : Values → Value
    map : Pairs → Value

  pub data Values : Type 0 where
    no_values : Values
    item : Value → Values → Values

  pub data Pairs : Type 0 where
    no_pairs : Pairs
    pair : Key → Value → Pairs → Pairs

abbrev pub size_values : Values → ℕ
size_values no_values = 0
size_values (item v vs) = suc (size_values vs)

abbrev pub size_pairs : Pairs → ℕ
size_pairs no_pairs = 0
size_pairs (pair k v ps) = suc (size_pairs ps)

abbrev pub key_token : Key → Token
key_token (str s) = Token.str s
key_token (uint n) = Token.uint n
key_token (int n) = Token.int n

-- What is read for a value, with what follows it.
abbrev mutual
  pub tokens : Value → List Token → List Token
  tokens nil ts = Token.nil ∷ ts
  tokens (bool b) ts = Token.bool b ∷ ts
  tokens (uint n) ts = Token.uint n ∷ ts
  tokens (int n) ts = Token.int n ∷ ts
  tokens (float d) ts = Token.float d ∷ ts
  tokens (double d) ts = Token.double d ∷ ts
  tokens (str s) ts = Token.str s ∷ ts
  tokens (bin s) ts = Token.bin s ∷ ts
  tokens (array vs) ts = Token.array (size_values vs) ∷ tokens_values vs ts
  tokens (map ps) ts = Token.map (size_pairs ps) ∷ tokens_pairs ps ts

  pub tokens_values : Values → List Token → List Token
  tokens_values no_values ts = ts
  tokens_values (item v vs) ts = tokens v (tokens_values vs ts)

  pub tokens_pairs : Pairs → List Token → List Token
  tokens_pairs no_pairs ts = ts
  tokens_pairs (pair k v ps) ts = key_token k ∷ tokens v (tokens_pairs ps ts)

-- How many values stand in one another.
abbrev mutual
  pub depth : Value → ℕ
  depth (array vs) = suc (depth_values vs)
  depth (map ps) = suc (depth_pairs ps)
  depth nil = 1
  depth (bool b) = 1
  depth (uint n) = 1
  depth (int n) = 1
  depth (float d) = 1
  depth (double d) = 1
  depth (str s) = 1
  depth (bin s) = 1

  pub depth_values : Values → ℕ
  depth_values no_values = 0
  depth_values (item v vs) = max (depth v) (depth_values vs)

  pub depth_pairs : Pairs → ℕ
  depth_pairs no_pairs = 1
  depth_pairs (pair k v ps) = max (depth v) (depth_pairs ps)

-- Whether a map stands in a value.
abbrev mutual
  pub has_map : Value → Bool
  has_map (array vs) = has_map_values vs
  has_map (map ps) = true
  has_map nil = false
  has_map (bool b) = false
  has_map (uint n) = false
  has_map (int n) = false
  has_map (float d) = false
  has_map (double d) = false
  has_map (str s) = false
  has_map (bin s) = false

  pub has_map_values : Values → Bool
  has_map_values no_values = false
  has_map_values (item v vs) = has_map v || has_map_values vs

abbrev pub quoted : Bytes → Bytes
quoted digits = b'"' ∷ (digits ++ (b'"' ∷ []))

-- An integer key is quoted as long as no map stood among the values before it: the end of the
-- inner map takes back that the outer one is a map.
abbrev pub key_text : Bool → Key → Bytes
key_text quotes (str s) = literal false s
key_text quotes (uint n) = if quotes then quoted (decimal n) else decimal n
key_text quotes (int n) = if quotes then quoted (signed_decimal n) else signed_decimal n

abbrev pub comma : Bool → Bytes
comma first = if first then [] else b',' ∷ []

module _ (f : Formats) where
  -- The text of a value; of the elements and the end of an array; of the members and the end of a
  -- map.
  abbrev mutual
    pub text : Value → Bytes
    text nil = codes "null"
    text (bool b) = if b then codes "true" else codes "false"
    text (uint n) = decimal n
    text (int n) = signed_decimal n
    text (float d) = f.format_float d
    text (double d) = f.format_double d
    text (str s) = literal false s
    text (bin s) = literal false s
    text (array vs) = b'[' ∷ text_values true vs
    text (map ps) = b'{' ∷ text_pairs true true ps

    pub text_values : Bool → Values → Bytes
    text_values first no_values = b']' ∷ []
    text_values first (item v vs) = comma first ++ (text v ++ text_values false vs)

    pub text_pairs : Bool → Bool → Pairs → Bytes
    text_pairs first quotes no_pairs = b'}' ∷ []
    text_pairs first quotes (pair k v ps) =
        comma first
        ++ (key_text quotes k
            ++ (b':' ∷ (text v ++ text_pairs false (quotes && not (has_map v)) ps)))
