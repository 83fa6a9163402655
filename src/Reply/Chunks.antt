-- ===== src/Reply/Chunks.antt =====
-- One call of ngx_http_tnt_filter_reply against the reference.

use nginx_upstream_module.Common.{
  ◌+◌, ◌<◌, ◌≡◌, Option, [], length, ℕ, Bytes, ◌≢◌, Bool-cases, some, arith, leb, ◌++◌, inl, ◌≤◌,
  ◌∷◌, none, take, ap, drop, sym, ◌-◌, take-append-drop, ◌∙◌, length-take, inr, leb_false→lt, refl,
  append-nil, Option-cases, length-drop, ltb, length-append, subst, ap₂,
}
use nginx_upstream_module.Reply.Filter.{
  Reader, Codecs, Filtered, Delivery, read_payload, read_body, send_reply, ngx_again,
  tp_read_payload, finish_reply, deliver, ngx_error, read_reply_body, begin_body, send_reply_,
  read_reply_payload, filter_reply, filter_reply_in,
}
use nginx_upstream_module.Reply.Reference.{
  Phase, header, reads, body, resume, after_header, reads_part_header, reads_full_header,
}
use nginx_upstream_module.Reply.Payload.{
  after_body, after_header-none, payload_short, resume-after_header, payload_full, reads-after_body,
}

-- The reader's fields in a phase. What stands behind `payload.p` does not matter, only its length.
abbrev pub Is : Reader → Phase → Type 0
Is r (header got) =
    (r.state ≡ read_payload)
    × (r.got ≡ got)
    × (length got < 5)
    × (length r.stale + length got ≡ 5)
    × (r.cache ≡ [])
Is r (body cache rest) =
    (r.state ≡ read_body)
    × (r.got ≡ [])
    × (0 < rest)
    × (r.rest ≡ rest)
    × (length r.stale ≡ 5)
    × (r.cache ≡ cache)

module _ (c : Codecs) where
  -- One call of filter_reply on `n` bytes, where the reference comes to `o`.
  pub data Call (f : Filtered c) (o : Option (Phase × Delivery)) (n : ℕ) : Type 0 where
    again :
        f.3 ≡ ngx_again
        → Is f.0 (header [])
        → length f.2 < n
        → 0 < length f.2
        → reads c (header []) f.1 f.2 ≡ o
        → Call f o n
    stopped : (p : Phase) → Is f.0 p → f.2 ≡ [] → f.3 ≢ ngx_again → o ≡ some (p, f.1) → Call f o n
    broken : f.3 ≡ ngx_error → o ≡ none → Call f o n

  send_reply-ne-again : (d : Delivery) (reply : Bytes) → (send_reply c d reply).1 ≢ ngx_again
  unfolding send_reply
  send_reply-ne-again d reply = ground arith

  -- The end of a reply.
  Call-finish_reply :
      (r : Reader) (d : Delivery) (input : Bytes) (n : ℕ)
      → r.got ≡ []
      → length r.stale ≡ 5
      → length input < n
      → Call (finish_reply c r d input) (reads c (header []) (deliver c d r.cache) input) n
  Call-finish_reply r d [] n g s h =
      stopped (header []) (unfold finish_reply in (refl, g, omega arith, omega arith, refl))
        (unfold finish_reply in refl) (unfold finish_reply in send_reply-ne-again d r.cache)
        (unfold finish_reply reads in refl)
  Call-finish_reply r d (x ∷ xs) n g s h =
      again (unfold finish_reply in ground arith)
        (unfold finish_reply in (refl, g, omega arith, omega arith, refl))
        (unfold finish_reply in h) (unfold finish_reply in omega arith)
        (unfold finish_reply in refl)

  Call-read_reply_body :
      (r : Reader) (d : Delivery) (input : Bytes) (n : ℕ)
      → r.state ≡ read_body
      → r.got ≡ []
      → length r.stale ≡ 5
      → length (drop r.rest input) < n
      → Call (read_reply_body c r d input) (after_body c r.cache r.rest d input) n
  Call-read_reply_body r d input n st g s h = elim (Bool-cases (leb r.rest (length input))) [
    | inl there ↦
        unfold read_reply_body after_body in
        rw there (
          Call-finish_reply
            (record r { state = send_reply_; rest = 0; cache = r.cache ++ take r.rest input }) d
            (drop r.rest input) n g s h)
    | inr short ↦
        let k = leb_false→lt r.rest (length input) short in
        unfold read_reply_body after_body in
        rw short (
          stopped (body (r.cache ++ input) (r.rest - length input))
            (st, g, omega arith, refl, s, refl) refl (λ e. cc) refl)
  ]

  tp_read_payload-ge : (mem : Bytes) (size : ℕ) → tp_read_payload c mem ≡ some size → 5 ≤ size
  unfolding tp_read_payload
  tp_read_payload-ge mem size e = ground arith

  Call-begin_body :
      (r : Reader) (d : Delivery) (input : Bytes) (n : ℕ)
      → length (r.got ++ r.stale) ≡ 5
      → length input < n
      → Call (begin_body c r d input) (resume c (after_header c d (r.got ++ r.stale)) input) n
  Call-begin_body r d input n s h = elim (Option-cases (tp_read_payload c (r.got ++ r.stale))) [
    | inl bad ↦
        broken (unfold begin_body in ground arith)
          (ap (λ o. resume c o input) (after_header-none c d (r.got ++ r.stale) bad))
    | inr (size, good) ↦
        let ge = tp_read_payload-ge (r.got ++ r.stale) size good in
        unfold begin_body in
        rw (good, begin_body)
          (rw (resume-after_header c d (r.got ++ r.stale) input size good ge) (
            Call-read_reply_body _ d input n refl refl s
              (omega (arith, length-drop (size - 5) input))))
  ]

  -- The length field is filled up, or it is not.
  Call-read_reply_payload :
      (r : Reader) (d : Delivery) (input : Bytes)
      → Is r (header r.got)
      → 0 < length input
      → Call (read_reply_payload c r d input) (reads c (header r.got) d input) (length input)
  Call-read_reply_payload r d input i h = elim (Bool-cases (ltb (length input) (length r.stale))) [
    | inl short ↦
        let lt : length input < length r.stale = ground arith in
        rw (payload_short c r d input h lt) (
          stopped (header (r.got ++ input))
            (
              i.0,
              refl,
              omega (arith, length-append r.got input),
              omega (arith, length-append r.got input, length-drop (length input) r.stale),
              i.4,
            )
            refl (λ e. cc) (reads_part_header c input r.got d (omega arith)))
    | inr full ↦
        let le : length r.stale ≤ length input = ground arith in
        let n = length r.stale in
        let taken : length (take n input) ≡ n = omega (arith, length-take n input) in
        let whole : reads c (header r.got) d input
            ≡ resume c (after_header c d ((r.got ++ take n input) ++ [])) (drop n input) =
          ap (reads c (header r.got) d) (sym (take-append-drop n input))
          ∙ reads_full_header c (take n input) (drop n input) r.got d i.2 (omega (arith, taken))
          ∙ rw append-nil in
        rw (payload_full c r d input (omega arith) le, whole)
          (Call-begin_body (record r { got = r.got ++ take n input; stale = [] }) d (drop n input)
            (length input)
            (omega (
              arith,
              length-append (r.got ++ take n input) [],
              length-append r.got (take n input),
              taken,
            ))
            (omega (arith, length-drop n input)))
  ]

  -- One call of filter_reply does what the reference does.
  pub Call-filter_reply :
      (p : Phase) (r : Reader) (d : Delivery) (input : Bytes)
      → Is r p
      → 0 < length input
      → Call (filter_reply c r d input) (reads c p d input) (length input)
  unfolding filter_reply_in
  Call-filter_reply (header got) r d input i h =
      subst
        (λ s. Call (filter_reply_in c s r d input) (reads c (header got) d input) (length input))
        (sym i.0)
        (subst
          (λ g. Call (read_reply_payload c r d input) (reads c (header g) d input) (length input))
          i.1
          (Call-read_reply_payload r d input
            (i.0, refl, omega (arith, ap length i.1), omega (arith, ap length i.1), i.4) h))
  Call-filter_reply (body cache rest) r d input i h =
      let same : reads c (body cache rest) d input ≡ after_body c r.cache r.rest d input =
        reads-after_body c cache rest d input i.2
        ∙ ap₂ (λ a b. after_body c a b d input) (sym i.5) (sym i.3) in
      subst
        (λ s.
          Call (filter_reply_in c s r d input) (reads c (body cache rest) d input) (length input))
        (sym i.0)
        (subst (λ o. Call (read_reply_body c r d input) o (length input)) (sym same)
          (Call-read_reply_body r d input (length input) i.0 i.1 i.4
            (omega (arith, length-drop r.rest input, i.2, i.3))))
