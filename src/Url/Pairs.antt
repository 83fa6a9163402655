-- ===== src/Url/Pairs.antt =====
-- A whole query string, argument after argument.
use nginx_upstream_module.Common.{
  ℕ, List, Bytes, drop, ◌<◌, ◌∷◌, ◌≡◌, length, Bool, ◌++◌, ◌+◌, if◌then◌else◌, arith, ap, true, [],
  suc, some, ◌≤◌, refl, false, ◌-◌, length-append, append_assoc, ◌∙◌, All, ltb, zero, append-nil,
  take-append, Option,
}
use nginx_upstream_module.Url.Args.{get_next_arg-splits}
use nginx_upstream_module.Tp.{TpLib, str, tp_encode_str_map_item, Tp, Item}
use nginx_upstream_module.Url.Query.{
  ngx_ok, passed_value, encode_str_map_item, ngx_ok, encode_arg, Encoding, encode_query_args,
  encode_args, encode_map_item, and_next,
}
use nginx_upstream_module.Url.{urldecode, unescape_uri, NextArg, get_next_arg}
use nginx_upstream_module.Tp.Frame.{framed, tp_encode-frame, frame}
use nginx_upstream_module.Url.Form.{
  Pair, first, IsPair, first_arg, query, drop-first_value, further, further-Ends, drop-first,
  behind_further,
}

-- What the pairs come to, one after the other.
abbrev pub all_bytes : (Pair → Bytes) → List Pair → Bytes
all_bytes bytes_of [] = []
all_bytes bytes_of (p ∷ ps) = bytes_of p ++ all_bytes bytes_of ps

-- A way to encode a pair that appends some bytes to a request in a buffer that they fit.
abbrev pub Appends : (Tp → ℕ → Bytes → Bytes → Encoding) → (Pair → Bytes) → Type 0
Appends item bytes_of =
    (pre bytes : Bytes) (room : ℕ) (sync : Option ℕ) (items : ℕ) (p : Pair)
    → length (bytes_of p) ≤ room
    → item (frame pre bytes room sync) items p.key p.value
      ≡ ngx_ok (frame pre (bytes ++ bytes_of p) (room - length (bytes_of p)) sync) items

module _ (item : Tp → ℕ → Bytes → Bytes → Encoding) (bytes_of : Pair → Bytes) where
  encode_arg-first :
      (pre bytes rest : Bytes) (room : ℕ) (sync : Option ℕ) (items : ℕ) (p : Pair)
      → Appends item bytes_of
      → 0 < length p.value
      → length (bytes_of p) ≤ room
      → encode_arg item (frame pre bytes room sync) items (first p rest) (first_arg p)
        ≡ ngx_ok (frame pre (bytes ++ bytes_of p) (room - length (bytes_of p)) sync) (items + 1)
  unfolding encode_arg
  encode_arg-first pre bytes rest room sync items p law h fits =
      let n : length p.key + 1 + length p.value - (length p.key + 1) ≡ length p.value =
        omega arith in
      let k : length p.key + 1 - 1 ≡ length p.key = omega arith in
      let some_value : ltb 0 (length p.value) ≡ true = ground arith in
      rw
        (
          encode_arg,
          n,
          some_value,
          k,
          take-append p.key (b'=' ∷ (p.value ++ rest)),
          drop-first_value p rest,
          take-append p.value rest,
        )
        (law pre bytes room sync (items + 1) p fits)

  next_arg :
      (fuel : ℕ) (tp : Tp) (items : ℕ) (text : Bytes) (arg : NextArg)
      → 0 < length text
      → get_next_arg text ≡ arg
      → encode_args item (suc fuel) tp items text
        ≡ and_next
            (encode_arg item tp items text arg)
            (λ tp' items'. encode_args item fuel tp' items' (drop (arg.it + 1) text))
  unfolding encode_args
  next_arg fuel tp items [] arg h e = absurd (omega arith)
  next_arg fuel tp items (b ∷ bs) arg h e =
      ap
        (λ a.
          and_next (encode_arg item tp items (b ∷ bs) a)
            (λ tp' items'. encode_args item fuel tp' items' (drop (a.it + 1) (b ∷ bs))))
        e

  nothing_read :
      (fuel : ℕ) (tp : Tp) (items : ℕ) → encode_args item fuel tp items [] ≡ ngx_ok tp items
  unfolding encode_args
  nothing_read zero tp items = refl
  nothing_read (suc fuel) tp items = refl

  -- The loop appends the bytes of each pair, in order, and counts the pairs.
  pub encode_args-query :
      (ps : List Pair) (fuel : ℕ) (pre bytes : Bytes) (room : ℕ) (sync : Option ℕ) (items : ℕ)
      → Appends item bytes_of
      → All IsPair ps
      → length ps ≤ fuel
      → length (all_bytes bytes_of ps) ≤ room
      → encode_args item fuel (frame pre bytes room sync) items (query ps)
        ≡ ngx_ok
            (frame pre
              (bytes ++ all_bytes bytes_of ps)
              (room - length (all_bytes bytes_of ps))
              sync)
            (items + length ps)
  encode_args-query [] fuel pre bytes room sync items law h le fits =
      let none_read : items + 0 ≡ items = omega arith in
      let all_left : room - 0 ≡ room = omega arith in
      rw (nothing_read fuel (frame pre bytes room sync) items, append-nil, none_read, all_left) refl
  encode_args-query (p ∷ ps) zero pre bytes room sync items law h le fits = absurd (omega arith)
  encode_args-query (p ∷ ps) (suc fuel) pre bytes room sync items law (i, is) le fits =
      let size = length-append (bytes_of p) (all_bytes bytes_of ps) in
      let n : items + 1 + length ps ≡ items + suc (length ps) = omega arith in
      let left : room - length (bytes_of p) - length (all_bytes bytes_of ps)
          ≡ room - length (bytes_of p ++ all_bytes bytes_of ps) =
        omega (arith, size) in
      next_arg fuel (frame pre bytes room sync) items (query (p ∷ ps)) (first_arg p)
        (omega (arith, length-append p.key (b'=' ∷ (p.value ++ further ps))))
        (get_next_arg-splits p.key p.value (further ps) i.key_equals i.key_ends i.value_ends
          (further-Ends ps)).0
      ∙ rw
          (
            encode_arg-first pre bytes (further ps) room sync items p law i.value_not_empty
                (omega (arith, size)),
            drop-first p (further ps),
            behind_further ps,
          )
          (encode_args-query ps fuel pre (bytes ++ bytes_of p) (room - length (bytes_of p)) sync
              (items + 1) law is (omega arith) (omega (arith, size))
            ∙ rw (append_assoc bytes (bytes_of p) (all_bytes bytes_of ps), left, n) refl)

module _ (lib : TpLib) (unescape : Bool) where
  -- What is passed on of a value.
  abbrev pub passed : Bytes → Bytes
  passed value = if unescape then urldecode value else value

  abbrev pub pair_bytes : Pair → Bytes
  pair_bytes p = lib.item_bytes (str p.key) ++ lib.item_bytes (str (passed p.value))

  abbrev pub pairs_bytes : List Pair → Bytes
  pairs_bytes ps = all_bytes pair_bytes ps

  -- Each pair as a map of its own.
  abbrev pub map_bytes : Pair → Bytes
  map_bytes p = lib.item_bytes (Item.map 1) ++ pair_bytes p

  passed_value-passed : (value : Bytes) → passed_value lib unescape true value ≡ some (passed value)
  unfolding passed_value
  passed_value-passed value = go unescape
    where
      go :
          (u : Bool)
          → (if u then unescape_uri true value else some value)
            ≡ some (if u then urldecode value else value)
      go true = refl
      go false = refl

  pub encode_str_map_item-Appends : Appends (encode_str_map_item lib unescape true) pair_bytes
  unfolding encode_str_map_item tp_encode_str_map_item
  encode_str_map_item-Appends pre bytes room sync items p h =
      let k = lib.item_bytes (str p.key) in
      let v = lib.item_bytes (str (passed p.value)) in
      let size = length-append k v in
      let left : room - length k - length v ≡ room - length (k ++ v) = omega (arith, size) in
      rw
        (
          encode_str_map_item,
          passed_value-passed p.value,
          tp_encode_str_map_item,
          tp_encode-frame lib (str p.key) pre bytes room sync (omega (arith, size)),
          tp_encode-frame lib (str (passed p.value)) pre (bytes ++ k) (room - length k) sync
              (omega (arith, size)),
          append_assoc bytes k v,
          left,
        )
        refl

  pub encode_map_item-Appends : Appends (encode_map_item lib unescape true) map_bytes
  unfolding encode_map_item
  encode_map_item-Appends pre bytes room sync items p h =
      let m = lib.item_bytes (Item.map 1) in
      let size = length-append m (pair_bytes p) in
      let left : room - length m - length (pair_bytes p) ≡ room - length (m ++ pair_bytes p) =
        omega (arith, size) in
      rw
        (
          encode_map_item,
          tp_encode-frame lib (Item.map 1) pre bytes room sync (omega (arith, size)),
          encode_str_map_item-Appends pre (bytes ++ m) (room - length m) sync items p
              (omega (arith, size)),
          append_assoc bytes m (pair_bytes p),
          left,
        )
        refl

  -- On a query string `k=v&k=v` whose values are not empty, whose keys have neither `=` nor `&` and
  -- whose values have no `&`, within a request in a buffer that the encodings fit, with memory for
  -- the values and at least as much fuel as arguments: the loop ends, has appended each key and its
  -- value, decoded if it is to be, in order, and has counted the arguments.
  pub encode_query_args-query :
      (ps : List Pair) (fuel : ℕ) (pre bytes : Bytes) (room sync items : ℕ)
      → All IsPair ps
      → length ps ≤ fuel
      → length (pairs_bytes ps) ≤ room
      → encode_query_args lib unescape true fuel (framed pre bytes room sync) items (query ps)
        ≡ ngx_ok
            (framed pre (bytes ++ pairs_bytes ps) (room - length (pairs_bytes ps)) sync)
            (items + length ps)
  encode_query_args-query ps fuel pre bytes room sync items h le fits =
      encode_args-query (encode_str_map_item lib unescape true) pair_bytes ps fuel pre bytes room
        (some sync) items encode_str_map_item-Appends h le fits
