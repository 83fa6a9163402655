-- ===== src/Reply/Payload.antt =====
-- The length field and the body of a reply, in the reference and in the code.
use Prim.Native.Nat.{min}
use nginx_upstream_module.Common.{
  ◌<◌, ◌≡◌, Option, [], length, ℕ, Bytes, if◌then◌else◌, Bool-cases, some, arith, leb, ◌++◌, inl,
  ◌≤◌, none, take, ap, drop, sym, ◌-◌, take-append-drop, ◌∙◌, length-take, leb→le, inr,
  leb_false→lt, ◌==◌, append-nil, suc, zero, true, length-drop, ltb, drop-length, false,
  take-length,
}
use nginx_upstream_module.Reply.Filter.{
  Reader, Codecs, Delivery, tp_read_payload, deliver, begin_body, read_reply_payload, ngx_ok,
}
use nginx_upstream_module.Reply.Reference.{
  Phase, header, reads, body, resume, after_header, reads_full_body, reads_part_body,
}

module _ (c : Codecs) where
  -- The reference, from the start of a reply's body on.
  unfoldable pub after_body : Bytes → ℕ → Delivery → Bytes → Option (Phase × Delivery)
  after_body cache rest d input =
      if leb rest (length input)
      then reads c (header []) (deliver c d (cache ++ take rest input)) (drop rest input)
      else some (body (cache ++ input) (rest - length input), d)

  pub reads-after_body :
      (cache : Bytes) (rest : ℕ) (d : Delivery) (input : Bytes)
      → 0 < rest
      → reads c (body cache rest) d input ≡ after_body cache rest d input
  unfolding after_body
  reads-after_body cache rest d input h = elim (Bool-cases (leb rest (length input))) [
    | inl there ↦ rw there (
        ap (reads c (body cache rest) d) (sym (take-append-drop rest input))
        ∙ reads_full_body c (take rest input) (drop rest input) cache rest d h
            (omega (arith, length-take rest input, leb→le rest (length input) there)))
    | inr short ↦
        rw short (reads_part_body c input cache rest d (leb_false→lt rest (length input) short))
  ]

  resume_size :
      (k : ℕ) (d : Delivery) (mem ys : Bytes)
      → resume c (if k == 0 then some (header [], deliver c d mem) else some (body mem k, d)) ys
        ≡ after_body mem k d ys
  resume_size zero d mem ys =
      let z : leb 0 (length ys) ≡ true = ground arith in unfold after_body in rw (z, append-nil)
  resume_size (suc k) d mem ys = ground (arith, reads-after_body mem (suc k) d ys)

  after_header-some :
      (d : Delivery) (mem : Bytes) (size : ℕ)
      → tp_read_payload c mem ≡ some size
      → 5 ≤ size
      → after_header c d mem ≡ (
          if size - 5 == 0
          then some (header [], deliver c d mem)
          else some (body mem (size - 5), d))
  unfolding after_header
  after_header-some d mem size e h =
      let same : (size == 5) ≡ (size - 5 == 0) = ground arith in rw (e, after_header) (rw same)

  pub after_header-none :
      (d : Delivery) (mem : Bytes) → tp_read_payload c mem ≡ none → after_header c d mem ≡ none
  unfolding after_header
  after_header-none d mem e = rw (e, after_header)

  pub resume-after_header :
      (d : Delivery) (mem ys : Bytes) (size : ℕ)
      → tp_read_payload c mem ≡ some size
      → 5 ≤ size
      → resume c (after_header c d mem) ys ≡ after_body mem (size - 5) d ys
  resume-after_header d mem ys size e h =
      ap (λ o. resume c o ys) (after_header-some d mem size e h) ∙ resume_size (size - 5) d mem ys

  payload_at :
      (r : Reader) (d : Delivery) (input : Bytes) (n : ℕ)
      → min (length r.stale) (length input) ≡ n
      → 0 < n
      → read_reply_payload c r d input ≡ (
          let r' = record r { got = r.got ++ take n input; stale = drop n r.stale } in
          if length (drop n r.stale) == 0
          then begin_body c r' d (drop n input)
          else (r', d, drop n input, ngx_ok))
  unfolding read_reply_payload
  payload_at r d input n e h =
      let pos : ltb 0 n ≡ true = ground arith in rw (e, read_reply_payload) (rw pos)

  pub payload_short :
      (r : Reader) (d : Delivery) (input : Bytes)
      → 0 < length input
      → length input < length r.stale
      → read_reply_payload c r d input
        ≡ (record r { got = r.got ++ input; stale = drop (length input) r.stale }, d, [], ngx_ok)
  payload_short r d input h lt =
      let more : (length (drop (length input) r.stale) == 0) ≡ false =
        ground (arith, length-drop (length input) r.stale) in
      payload_at r d input (length input) (omega arith) h
      ∙ rw (more, take-length input, drop-length input)

  pub payload_full :
      (r : Reader) (d : Delivery) (input : Bytes)
      → 0 < length r.stale
      → length r.stale ≤ length input
      → read_reply_payload c r d input
        ≡ begin_body c
            (record r { got = r.got ++ take (length r.stale) input; stale = [] })
            d
            (drop (length r.stale) input)
  payload_full r d input h le =
      payload_at r d input (length r.stale) (omega arith) h ∙ rw (drop-length r.stale)
