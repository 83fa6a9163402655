-- ===== src/Pass/Parts.antt =====
-- The parts of a request one after the other.
use nginx_upstream_module.Tp.{TpLib, str}
use nginx_upstream_module.Pass.{
  PassConf, HttpRequest, root_items, entry, when, put_pair, put_uri, put, has_body, chosen_uri,
  ◌>>◌, counted_items, put_urlencoded, put_body, put_args, put_headers,
}
use nginx_upstream_module.Common.{List, Bytes, ◌&&◌, codes, ◌∷◌, [], length}
use nginx_upstream_module.Url.Form.{Pair}
use nginx_upstream_module.Url.Pairs.{passed, pairs_bytes}
use nginx_upstream_module.Pass.Entries.{
  WritesEntries, entries-seq, one_entry, entries_if, when-WritesEntries, key_entry,
}
use nginx_upstream_module.Pass.Text.{
  IsPassed, enough, request_entries, string_entry, uri-Writes, args_entry, headers_entry,
  form_entry, urlencoded-Writes, body-Writes, and_left, all_headers, args-Writes, headers-Writes,
  and_right,
}
use nginx_upstream_module.Pass.Writes.{put_pair-Writes, counted_items-Writes, header_bytes}

module _ (lib : TpLib) (c : PassConf) (r : HttpRequest) (args form : List Pair) (text : Bytes) where
  -- The parts that every request has, and those that the configuration asks for.
  string_part :
      (key value : Bytes)
      → WritesEntries lib
          (entry (put_pair lib key value))
          (string_entry lib c r args form text key value ∷ [])
  string_part key value =
      one_entry lib (put_pair lib key value) (string_entry lib c r args form text key value)
        (put_pair-Writes lib key value)

  uri_part : WritesEntries lib (entry (put_uri lib c enough r)) (
      string_entry lib c r args form text
        (codes "uri")
        (passed lib c.unescape (chosen_uri lib c enough r))
      ∷ [])
  uri_part =
      one_entry lib (put_uri lib c enough r)
        (string_entry lib c r args form text (codes "uri")
          (passed lib c.unescape (chosen_uri lib c enough r)))
        (uri-Writes lib c r args form text)

  args_part :
      IsPassed c r args form text
      → WritesEntries lib
          (when c.parse_args (
            entry
              (put lib (str (codes "args")) >> counted_items lib 0xdf (put_args lib c enough r))))
          (entries_if lib c.parse_args ((args_entry lib c r args form text) ∷ []))
  args_part i =
      when-WritesEntries lib c.parse_args
        (entry (put lib (str (codes "args")) >> counted_items lib 0xdf (put_args lib c enough r)))
        ((args_entry lib c r args form text) ∷ [])
        (λ on.
          key_entry lib (codes "args") (counted_items lib 0xdf (put_args lib c enough r))
            (args_entry lib c r args form text).value
            (counted_items-Writes lib 0xdf (put_args lib c enough r)
              (pairs_bytes lib c.unescape args) (length args)
              (args-Writes lib c r args form text i)))

  headers_part :
      WritesEntries lib
        (entry
          (put lib (str (codes "headers")) >> counted_items lib 0xdf (put_headers lib c enough r)))
        ((headers_entry lib c r args form text) ∷ [])
  headers_part =
      key_entry lib (codes "headers") (counted_items lib 0xdf (put_headers lib c enough r))
        (headers_entry lib c r args form text).value
        (counted_items-Writes lib 0xdf (put_headers lib c enough r)
          (header_bytes lib (all_headers lib c r args form text))
          (length (all_headers lib c r args form text)) (headers-Writes lib c r args form text))

  form_part :
      IsPassed c r args form text
      → WritesEntries lib
          (when
            (c.parse_urlencoded && has_body lib c enough r)
            (entry (put lib (str (codes "args_urlencoded")) >> put_urlencoded lib c enough r)))
          (entries_if lib
            (c.parse_urlencoded && has_body lib c enough r)
            ((form_entry lib c r args form text) ∷ []))
  form_part i =
      when-WritesEntries lib (c.parse_urlencoded && has_body lib c enough r)
        (entry (put lib (str (codes "args_urlencoded")) >> put_urlencoded lib c enough r))
        ((form_entry lib c r args form text) ∷ [])
        (λ on.
          key_entry lib (codes "args_urlencoded") (put_urlencoded lib c enough r)
            (form_entry lib c r args form text).value
            (urlencoded-Writes lib c r args form text i
              (i.length_is
                (and_right lib c r args form text c.parse_urlencoded (has_body lib c enough r) on))
              (i.form_is
                (and_left lib c r args form text c.parse_urlencoded (has_body lib c enough r) on))))

  body_part :
      IsPassed c r args form text
      → WritesEntries lib
          (when
            (c.pass_body && has_body lib c enough r)
            (entry (put lib (str (codes "body")) >> put_body lib c enough r)))
          (entries_if lib
            (c.pass_body && has_body lib c enough r)
            (string_entry lib c r args form text (codes "body") text ∷ []))
  body_part i =
      when-WritesEntries lib (c.pass_body && has_body lib c enough r)
        (entry (put lib (str (codes "body")) >> put_body lib c enough r))
        (string_entry lib c r args form text (codes "body") text ∷ [])
        (λ on. key_entry lib (codes "body") (put_body lib c enough r) (lib.item_bytes (str text)) (
          body-Writes lib c r args form text i (
            i.length_is
              (and_right lib c r args form text c.pass_body (has_body lib c enough r) on))))

  pub root_items-WritesEntries :
      IsPassed c r args form text
      → WritesEntries lib (root_items lib c enough r) (request_entries lib c r args form text)
  unfolding root_items
  root_items-WritesEntries i = entries-seq lib (string_part (codes "proto") r.http_protocol) (
      entries-seq lib (string_part (codes "method") r.method_name) (
        entries-seq lib uri_part (
          entries-seq lib (args_part i)
            (entries-seq lib headers_part (entries-seq lib (form_part i) (body_part i))))))
