-- ===== src/Dml/Whole.antt =====
-- A whole format, item after item.
use nginx_upstream_module.Common.{
  [], ◌∷◌, Bool, Bytes, List, ◌++◌, length, ◌+◌, ◌≡◌, All, append_assoc, arith, length-append, none,
  refl, ◌∙◌,
}
use nginx_upstream_module.Dml.Compile.{compile_from, format_compile, conf_ok, with_values, apply}
use nginx_upstream_module.Dml.Compiles.{
  FormatItem, item_text, format_text, IsFormatItem, From, apply_all, past_item, more_items,
  more_items-EndsItem, apply-req_type,
}
use nginx_upstream_module.Dml.State.{ReqType, Conf}
use nginx_upstream_module.Dml.Formats.{spelling, letters}

module _ (stale_key stale_op : Bool) where
  -- The text up to the next item.
  behind_item :
      (pre : Bytes) (x : FormatItem) (rest : Bytes)
      → pre ++ item_text x (b',' ∷ rest) ≡ (pre ++ item_text x (b',' ∷ [])) ++ rest
  behind_item pre x rest =
      rw
        (
          append_assoc pre (item_text x (b',' ∷ [])) rest,
          append_assoc x.name (b'=' ∷ (spelling x.means ++ (b',' ∷ []))) rest,
          append_assoc (letters x.means) (b',' ∷ []) rest,
        )
        refl

  length-behind_item :
      (pre : Bytes) (x : FormatItem)
      → length pre + length x.name + 1 + length (spelling x.means) + 1
        ≡ length (pre ++ item_text x (b',' ∷ []))
  length-behind_item pre x = omega (
    arith,
    length-append pre (item_text x (b',' ∷ [])),
    length-append x.name (b'=' ∷ (spelling x.means ++ (b',' ∷ []))),
    length-append (letters x.means) (b',' ∷ []),
  )

  compile_from-items :
      (text pre : Bytes) (x : FormatItem) (xs : List FormatItem) (type : ReqType) (c : Conf)
      → text ≡ pre ++ format_text (x ∷ xs)
      → All (IsFormatItem type) (x ∷ xs)
      → c.req_type ≡ type
      → From stale_key stale_op text (length pre) none none (format_text (x ∷ xs)) c
        ≡ conf_ok (apply_all stale_key stale_op (x ∷ xs) c)
  unfolding compile_from
  compile_from-items text pre x [] type c same (i, is) of_type =
      past_item stale_key stale_op text pre x [] type c same i of_type tt
  compile_from-items text pre x (y ∷ ys) type c same (i, is) of_type =
      let c' = apply stale_key stale_op (x.name ++ (b'=' ∷ [])) x.means c in
      past_item stale_key stale_op text pre x (more_items (y ∷ ys)) type c same i of_type
        (more_items-EndsItem (y ∷ ys))
      ∙ rw (length-behind_item pre x) (
          compile_from-items text (pre ++ item_text x (b',' ∷ [])) y ys type c'
            (same ∙ behind_item pre x (format_text (y ∷ ys))) is
            (apply-req_type stale_key stale_op (x.name ++ (b'=' ∷ [])) x.means c ∙ of_type))

  -- A format `a=%n,b=%s` whose names have no `=`, `,` or `&`, and whose types are those that the
  -- type of the request allows, is compiled: it sets the names of special values and adds the other
  -- values in order, each with its `=`, its type and its bit.
  pub format_compile-format_text :
      (xs : List FormatItem) (c : Conf)
      → All (IsFormatItem c.req_type) xs
      → format_compile stale_key stale_op c (format_text xs)
        ≡ conf_ok (apply_all stale_key stale_op xs (with_values stale_key stale_op c))
  unfolding compile_from
  format_compile-format_text [] c h = refl
  format_compile-format_text (x ∷ xs) c h =
      compile_from-items (format_text (x ∷ xs)) [] x xs c.req_type
        (with_values stale_key stale_op c) refl h refl
