-- ===== src/Pass/Text.antt =====
-- The entries of what is passed on of a request, and the bytes that each part writes.
use nginx_upstream_module.Pass.{
  PassConf, Memory, HttpRequest, Header, put_args, encoded, has_body, put_uri, put_urlencoded_from,
  put_urlencoded, put_body, put_body_from, copy_headers, chosen_uri, when, put_headers, is_length,
  has_bufs, is_within,
}
use nginx_upstream_module.Tp.{TpLib, str, reserve_add}
use nginx_upstream_module.Common.{
  true, List, Bytes, ◌≡◌, ◌++◌, codes, All, if◌then◌else◌, ◌∷◌, [], length, subst, some, sym, ◌&&◌,
  ap, Bool, ◌+◌, arith, ◌∙◌, le→leb, false, refl, append_assoc, length-append, if_true, ◌==◌, leb,
}
use nginx_upstream_module.Url.Form.{Pair, query, IsPair, length-query}
use nginx_upstream_module.Url.Pairs.{
  pairs_bytes, passed, all_bytes, encode_args-query, map_bytes, pair_bytes,
  encode_str_map_item-Appends, encode_map_item-Appends,
}
use nginx_upstream_module.Pass.Entries.{Entry, entries_if, entry_bytes}
use nginx_upstream_module.Pass.Writes.{
  Writes, counted_bytes, header_bytes, counted_items-Writes, copy_headers-Writes, pair_items,
  Writes-none, Writes-seq,
}
use nginx_upstream_module.Dml.Format.{unparsed_body}
use nginx_upstream_module.Url.Query.{
  encode_query_args, encode_str_map_item, encode_urlencoded_body, encode_map_item,
}
use nginx_upstream_module.Tp.Frame.{frame, accepted-frame}
use nginx_upstream_module.Common.Int.{is_positive, ℤ, pos}
use mathlib.Core.Bool.{true≢false}

-- A request whose arguments are these pairs, and whose body is this text, and these pairs where it
-- is to be parsed; there is memory.
pub record IsPassed (c : PassConf) (r : HttpRequest) (args form : List Pair) (text : Bytes)
    : Type 0 where
  pub args_are : r.args ≡ query args
  pub args_law : All IsPair args
  pub body_is : unparsed_body r.request_bufs ≡ some text
  pub form_is : c.parse_urlencoded ≡ true → text ≡ query form
  pub form_law : All IsPair form
  pub length_is :
      (is_positive r.content_length_n && has_bufs r.request_bufs) ≡ true
      → r.content_length_n ≡ pos (length text)

abbrev pub enough : Memory
enough = record { decoded = true; body = true }

module _ (lib : TpLib) (c : PassConf) (r : HttpRequest) (args form : List Pair) (text : Bytes) where
  abbrev pub string_entry : Bytes → Bytes → Entry
  string_entry key value = record { key = key; value = lib.item_bytes (str value) }

  abbrev pub all_headers : List Header
  all_headers = r.headers_in ++ (if c.pass_headers_out then r.headers_out else [])

  abbrev pub args_entry : Entry
  args_entry = record {
    key = codes "args";
    value = counted_bytes lib 0xdf (length args) (pairs_bytes lib c.unescape args);
  }

  abbrev pub headers_entry : Entry
  headers_entry = record {
    key = codes "headers";
    value = counted_bytes lib 0xdf (length all_headers) (header_bytes lib all_headers);
  }

  -- The pairs of the body, each a map of its own.
  abbrev pub form_entry : Entry
  form_entry = record {
    key = codes "args_urlencoded";
    value = counted_bytes lib 0xdd (length form) (all_bytes (map_bytes lib c.unescape) form);
  }

  -- What is passed on, by the configuration and the request.
  abbrev pub request_entries : List Entry
  request_entries =
      string_entry (codes "proto") r.http_protocol
      ∷ string_entry (codes "method") r.method_name
      ∷ string_entry (codes "uri") (passed lib c.unescape (chosen_uri lib c enough r))
      ∷ (entries_if lib c.parse_args (args_entry ∷ [])
          ++ (headers_entry
              ∷ (entries_if lib (c.parse_urlencoded && has_body lib c enough r) (form_entry ∷ [])
                  ++ entries_if lib (c.pass_body && has_body lib c enough r)
                      (string_entry (codes "body") text ∷ []))))

  pub args-Writes :
      IsPassed c r args form text
      → Writes (put_args lib c enough r) (pairs_bytes lib c.unescape args) (length args)
  args-Writes i =
      subst
        (λ t.
          Writes (λ tp n. encoded (encode_query_args lib c.unescape true (length t) tp n t))
            (pairs_bytes lib c.unescape args) (length args))
        (sym i.args_are)
        (λ pre body room sync n h. ap encoded (
          encode_args-query (encode_str_map_item lib c.unescape true) (pair_bytes lib c.unescape)
            args (length (query args)) pre body room sync n
            (encode_str_map_item-Appends lib c.unescape) i.args_law (length-query args) h))

  pub uri-Writes :
      Writes
        (put_uri lib c enough r)
        (entry_bytes lib
          (string_entry (codes "uri") (passed lib c.unescape (chosen_uri lib c enough r))))
        0
  uri-Writes pre body room sync n h =
      let z : n + 0 ≡ n = omega arith in
      ap encoded (
        encode_str_map_item-Appends lib c.unescape pre body room sync n
          (record { key = codes "uri"; value = chosen_uri lib c enough r }) h)
      ∙ rw z refl

  abbrev IsAnnounced : ℤ → Type 0
  IsAnnounced z = (is_length z text ≡ true) × (is_within z text ≡ true)

  same_IsAnnounced : r.content_length_n ≡ pos (length text) → IsAnnounced r.content_length_n
  unfolding is_length is_within
  same_IsAnnounced e =
      let same : (length text == length text) ≡ true = ground arith in
      let within : leb (length text) (length text + 1) ≡ true = ground arith in
      subst IsAnnounced (sym e) (same, within)

  form-Writes :
      IsPassed c r args form text
      → r.content_length_n ≡ pos (length text)
      → text ≡ query form
      → Writes
          (put_urlencoded_from lib c enough r (some text))
          (counted_bytes lib 0xdd (length form) (all_bytes (map_bytes lib c.unescape) form))
          0
  form-Writes i long same pre body room sync n h =
      if_true (is_within r.content_length_n text) _ _ (same_IsAnnounced long).1
      ∙ counted_items-Writes lib 0xdd _ (all_bytes (map_bytes lib c.unescape) form) (length form)
          (subst
            (λ t.
              Writes
                (λ tp n. encoded (encode_urlencoded_body lib c.unescape true (length t) tp n t))
                (all_bytes (map_bytes lib c.unescape) form) (length form))
            (sym same)
            (λ pre body room sync n h. ap encoded (
              encode_args-query (encode_map_item lib c.unescape true) (map_bytes lib c.unescape)
                form (length (query form)) pre body room sync n
                (encode_map_item-Appends lib c.unescape) i.form_law (length-query form) h)))
          pre body room sync n h

  pub urlencoded-Writes :
      IsPassed c r args form text
      → r.content_length_n ≡ pos (length text)
      → text ≡ query form
      → Writes
          (put_urlencoded lib c enough r)
          (counted_bytes lib 0xdd (length form) (all_bytes (map_bytes lib c.unescape) form))
          0
  urlencoded-Writes i long same =
      subst
        (λ o.
          Writes (put_urlencoded_from lib c enough r o)
            (counted_bytes lib 0xdd (length form) (all_bytes (map_bytes lib c.unescape) form)) 0)
        (sym i.body_is) (form-Writes i long same)

  text-Writes :
      r.content_length_n ≡ pos (length text)
      → Writes (put_body_from lib c enough r (some text)) (lib.item_bytes (str text)) 0
  unfolding reserve_add
  text-Writes long pre body room sync n h =
      let z : n + 0 ≡ n = omega arith in
      let fits = le→leb (length (lib.item_bytes (str text))) room h in
      rw
        (
          (same_IsAnnounced long).0,
          reserve_add,
          lib.ensure_law (frame pre body room sync) (length (lib.item_bytes (str text))),
          fits,
          lib.add_law (frame pre body room sync) (lib.item_bytes (str text)),
          accepted-frame pre body (lib.item_bytes (str text)) room sync,
          z,
        )
        refl

  pub body-Writes :
      IsPassed c r args form text
      → r.content_length_n ≡ pos (length text)
      → Writes (put_body lib c enough r) (lib.item_bytes (str text)) 0
  body-Writes i long =
      subst (λ o. Writes (put_body_from lib c enough r o) (lib.item_bytes (str text)) 0)
        (sym i.body_is) (text-Writes long)

  header_bytes-append :
      (hs gs : List Header)
      → header_bytes lib (hs ++ gs) ≡ header_bytes lib hs ++ header_bytes lib gs
  header_bytes-append [] gs = refl
  header_bytes-append (h ∷ hs) gs =
      rw
        (
          header_bytes-append hs gs,
          append_assoc (pair_items lib h.key h.value) (header_bytes lib hs) (header_bytes lib gs),
        )
        refl

  -- The headers that are added, where they are.
  abbrev added : Bool → List Header
  added b = if b then r.headers_out else []

  added-Writes :
      (b : Bool)
      → Writes
          (when b (copy_headers lib r.headers_out))
          (header_bytes lib (added b))
          (length (added b))
  added-Writes true = copy_headers-Writes lib r.headers_out
  added-Writes false = Writes-none (copy_headers lib r.headers_out)

  pub headers-Writes :
      Writes (put_headers lib c enough r) (header_bytes lib all_headers) (length all_headers)
  headers-Writes =
      let gs = added c.pass_headers_out in
      subst (λ b. Writes (put_headers lib c enough r) b (length (r.headers_in ++ gs)))
        (sym (header_bytes-append r.headers_in gs))
        (subst
          (λ k.
            Writes (put_headers lib c enough r)
              (header_bytes lib r.headers_in ++ header_bytes lib gs) k)
          (sym (length-append r.headers_in gs))
          (Writes-seq (copy_headers lib r.headers_in)
            (when c.pass_headers_out (copy_headers lib r.headers_out))
            (header_bytes lib r.headers_in) (header_bytes lib gs) (length r.headers_in) (length gs)
            (copy_headers-Writes lib r.headers_in) (added-Writes c.pass_headers_out)))

  pub and_left : (a b : Bool) → (a && b) ≡ true → a ≡ true
  and_left true b h = refl
  and_left false b h = h

  pub and_right : (a b : Bool) → (a && b) ≡ true → b ≡ true
  and_right true b h = h
  and_right false b h = absurd (true≢false (sym h))
