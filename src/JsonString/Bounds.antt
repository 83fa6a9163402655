-- ===== src/JsonString/Bounds.antt =====
-- json_encode_string and the size of its buffer.
use nginx_upstream_module.Common.{
  ℕ, ◌+◌, ◌-◌, ◌≤◌, ◌<◌, ◌≡◌, refl, ap, ◌∙◌, sym, arith, Bool, none, some, [], ◌∷◌, ◌++◌,
  append_assoc, append-nil, Bytes, length, length-append, leb, leb→le, leb_false→lt, Bool-cases,
  inl, inr,
}
use nginx_upstream_module.JsonString.{
  Cursor, append_str, append_ch, done, oom, encode_chars, json_encode_string,
}
use nginx_upstream_module.JsonString.Spelling.{
  spelled, spelled_all, literal, append_escaped-spelled,
}

abbrev pub wrote : Cursor → Bytes → Cursor
wrote c bs = record { out = c.out ++ bs; room = c.room - length bs }

pub append_str_fits :
    (c : Cursor) (bs : Bytes) → length bs ≤ c.room → append_str c bs ≡ some (wrote c bs)
unfolding append_str
append_str_fits c bs h = ground arith

pub append_str_full : (c : Cursor) (bs : Bytes) → c.room < length bs → append_str c bs ≡ none
unfolding append_str
append_str_full c bs h = ground arith

-- Two writes in a row amount to one.
pub wrote-wrote : (c : Cursor) (a b : Bytes) → wrote (wrote c a) b ≡ wrote c (a ++ b)
wrote-wrote c a b = λ i. record {
  out = append_assoc c.out a b i;
  room =
      (let e : c.room - length a - length b ≡ c.room - length (a ++ b) =
            omega (arith, length-append a b) in
          e)
        i;
}

-- What an unfinished call has written is a front part of the text, and is within the buffer.
pub record StoppedIn (c : Cursor) (text : Bytes) (c' : Cursor) : Type 0 where
  pub written : Bytes
  pub unwritten : Bytes
  pub splits : text ≡ written ++ unwritten
  pub out_is : c'.out ≡ c.out ++ written
  pub room_is : length written + c'.room ≡ c.room

encode_chars-done :
    (s : Bool) (c : Cursor) (str : Bytes)
    → length (spelled_all s str) + 1 ≤ c.room
    → encode_chars s c str ≡ done (wrote c (spelled_all s str ++ (b'"' ∷ [])))
unfolding encode_chars append_ch
encode_chars-done s c [] h = rw (append_str_fits c (b'"' ∷ []) (omega arith), encode_chars)
encode_chars-done s c (ch ∷ str) h =
    let n : length (spelled s ch) ≤ c.room =
      omega (arith, length-append (spelled s ch) (spelled_all s str)) in
    rw (append_escaped-spelled s c ch, append_str_fits c (spelled s ch) n, encode_chars)
      (encode_chars-done s (wrote c (spelled s ch)) str
          (omega (arith, length-append (spelled s ch) (spelled_all s str)))
        ∙ ap done (wrote-wrote c (spelled s ch) (spelled_all s str ++ (b'"' ∷ [])))
        ∙ rw append_assoc)

StoppedIn-append :
    (s : Bool) (c : Cursor) (ch : ℕ) (str : Bytes) (c' : Cursor)
    → length (spelled s ch) ≤ c.room
    → StoppedIn (wrote c (spelled s ch)) (spelled_all s str ++ (b'"' ∷ [])) c'
    → StoppedIn c (spelled_all s (ch ∷ str) ++ (b'"' ∷ [])) c'
StoppedIn-append s c ch str c' n r = record {
  written = spelled s ch ++ r.written;
  unwritten = r.unwritten;
  splits =
      append_assoc (spelled s ch) (spelled_all s str) (b'"' ∷ [])
      ∙ ap (◌++◌ (spelled s ch)) r.splits
      ∙ sym (append_assoc (spelled s ch) r.written r.unwritten);
  out_is = r.out_is ∙ append_assoc c.out (spelled s ch) r.written;
  room_is = omega (arith, r.room_is, length-append (spelled s ch) r.written);
}

encode_chars-oom :
    (s : Bool) (c : Cursor) (str : Bytes)
    → c.room < length (spelled_all s str) + 1
    → (c' : Cursor) × (encode_chars s c str ≡ oom c')
      × StoppedIn c (spelled_all s str ++ (b'"' ∷ [])) c'
unfolding encode_chars append_ch
encode_chars-oom s c [] h = (
  c,
  rw (append_str_full c (b'"' ∷ []) (omega arith), encode_chars),
  record {
    written = [];
    unwritten = b'"' ∷ [];
    splits = refl;
    out_is = sym (append-nil c.out);
    room_is = omega arith;
  },
)
encode_chars-oom s c (ch ∷ str) h = elim (Bool-cases (leb (length (spelled s ch)) c.room)) [
  | inl fits ↦
      let n = leb→le (length (spelled s ch)) c.room fits in
      let rest =
        encode_chars-oom s (wrote c (spelled s ch)) str
          (omega (arith, length-append (spelled s ch) (spelled_all s str))) in
      (
        rest.0,
        rw (append_escaped-spelled s c ch, append_str_fits c (spelled s ch) n, encode_chars) rest.1,
        StoppedIn-append s c ch str rest.0 n rest.2,
      )
  | inr full ↦ (
    c,
    rw (
      append_escaped-spelled s c ch,
      append_str_full c (spelled s ch) (leb_false→lt (length (spelled s ch)) c.room full),
      encode_chars,
    ),
    record {
      written = [];
      unwritten = spelled_all s (ch ∷ str) ++ (b'"' ∷ []);
      splits = refl;
      out_is = sym (append-nil c.out);
      room_is = omega arith;
    },
  )
]

-- A literal that fits the buffer, its quotes included, is written whole behind what is there,
-- nothing else is written, and the room left is less by its length.
pub json_encode_string-literal :
    (s : Bool) (buf : Bytes) (buf_len : ℕ) (str : Bytes)
    → length (literal s str) ≤ buf_len
    → json_encode_string (some buf) buf_len (some str) s
      ≡ done (record { out = buf ++ literal s str; room = buf_len - length (literal s str) })
unfolding json_encode_string literal append_ch
json_encode_string-literal s buf buf_len str h =
    let start : Cursor = record { out = buf; room = buf_len } in
    ground (
      arith,
      append_str_fits start (b'"' ∷ []),
      encode_chars-done s (wrote start (b'"' ∷ [])) str,
      length-append (spelled_all s str) (b'"' ∷ []),
      append_assoc buf (b'"' ∷ []) (spelled_all s str ++ (b'"' ∷ [])),
    )

-- Where the buffer has room but the literal does not fit it, the encoder says that it is out of
-- memory, and what it has written is a front part of the literal that is within the buffer.
pub json_encode_string-oom :
    (s : Bool) (buf : Bytes) (buf_len : ℕ) (str : Bytes)
    → 0 < buf_len
    → buf_len < length (literal s str)
    → (c : Cursor) × (json_encode_string (some buf) buf_len (some str) s ≡ oom c)
      × StoppedIn (record { out = buf; room = buf_len }) (literal s str) c
unfolding json_encode_string literal append_ch
json_encode_string-oom s buf buf_len str h k =
    let start : Cursor = record { out = buf; room = buf_len } in
    let rest =
      encode_chars-oom s (wrote start (b'"' ∷ [])) str
        (omega (arith, length-append (spelled_all s str) (b'"' ∷ []))) in
    let r = rest.2 in
    (
      rest.0,
      ground (arith, append_str_fits start (b'"' ∷ []), rest.1),
      record {
        written = b'"' ∷ r.written;
        unwritten = r.unwritten;
        splits = ap (◌∷◌ b'"') r.splits;
        out_is = r.out_is ∙ append_assoc buf (b'"' ∷ []) r.written;
        room_is = omega (arith, r.room_is);
      },
    )
