-- ===== src/Reply/Batch.antt =====
-- The replies of a batch, one after the other: the text that the client gets.
use nginx_upstream_module.Reply.Reference.{deliver_all}
use mathlib.Core.List.{flatten}
use nginx_upstream_module.Common.{
  suc, ◌+◌, All, ap, append-nil, append_assoc, ℕ, List, Bytes, true, false, some, [], ◌∷◌, ◌++◌,
  ◌-◌, ◌<◌, ◌≡◌, ◌==◌, ◌∙◌, length, ltb, leb, refl, arith,
}
use nginx_upstream_module.Reply.Filter.{
  Codecs, Delivery, deliver, send_reply, count_down, opening, closing, ngx_ok,
}
use nginx_upstream_module.Http.{ngx_ok}

-- `rest` replies of `n` are still to come.
abbrev pub batch_at : ℕ → ℕ → List Bytes → Delivery
batch_at n rest o = record {
  batch_size = n;
  rest_batch_size = rest;
  in_err = false;
  out_bufs = o;
  length_is_zero = false;
}

abbrev pub finished : List Bytes → Delivery
finished o = record {
  batch_size = 0;
  rest_batch_size = 0;
  in_err = false;
  out_bufs = o;
  length_is_zero = true;
}

module _ (c : Codecs) (text : Bytes → Bytes) where
  -- The codec has a text for the reply.
  pub record IsAnswered (r : Bytes) : Type 0 where
    pub answer : c.reply_to_json r ≡ some (text r)
    pub not_empty : (length (text r) == 0) ≡ false

  -- The texts with commas between them, and the bracket at the end.
  abbrev pub joined : List Bytes → Bytes
  joined [] = b']' ∷ []
  joined (r ∷ []) = text r ++ (b']' ∷ [])
  joined (r ∷ q ∷ rs) = text r ++ (b',' ∷ joined (q ∷ rs))

  send_reply-answer :
      (d : Delivery) (r : Bytes)
      → d.in_err ≡ false
      → IsAnswered r
      → send_reply c d r ≡ (
        record d { out_bufs = d.out_bufs ++ ((opening c d ++ (text r ++ closing c d)) ∷ []) },
        ngx_ok,
      )
  unfolding send_reply
  send_reply-answer d r e a = rw (send_reply, a.answer, a.not_empty, e) refl

  deliver-answer :
      (d : Delivery) (r : Bytes)
      → d.in_err ≡ false
      → IsAnswered r
      → deliver c d r
        ≡ count_down c
            (record d { out_bufs = d.out_bufs ++ ((opening c d ++ (text r ++ closing c d)) ∷ []) })
  unfolding deliver
  deliver-answer d r e a = ap (λ x. count_down c x.0) (send_reply-answer d r e a)

  deliver-last :
      (n : ℕ) (o : List Bytes) (r : Bytes)
      → 1 < n
      → IsAnswered r
      → deliver c (batch_at n 1 o) r ≡ finished (o ++ ((text r ++ (b']' ∷ [])) ∷ []))
  deliver-last n o r h a =
      let some_batch : ltb 0 n ≡ true = ground arith in
      let begun : (1 == n) ≡ false = ground arith in
      deliver-answer (batch_at n 1 o) r refl a ∙ rw (some_batch, begun) refl

  deliver-next :
      (n k : ℕ) (o : List Bytes) (r : Bytes)
      → 1 < k
      → k < n
      → IsAnswered r
      → deliver c (batch_at n k o) r ≡ batch_at n (k - 1) (o ++ ((text r ++ (b',' ∷ [])) ∷ []))
  deliver-next n k o r h l a =
      let some_batch : ltb 0 n ≡ true = ground arith in
      let begun : (k == n) ≡ false = ground arith in
      let more : (k == 1) ≡ false = ground arith in
      let within : leb k n ≡ true = ground arith in
      let down : leb k 1 ≡ false = ground arith in
      deliver-answer (batch_at n k o) r refl a ∙ rw (some_batch, begun, more, within, down) refl

  deliver-first :
      (n : ℕ) (r : Bytes)
      → 1 < n
      → IsAnswered r
      → deliver c (batch_at n n []) r ≡ batch_at n (n - 1) ((b'[' ∷ (text r ++ (b',' ∷ []))) ∷ [])
  deliver-first n r h a =
      let some_batch : ltb 0 n ≡ true = ground arith in
      let same : (n == n) ≡ true = ground arith in
      let more : (n == 1) ≡ false = ground arith in
      let within : leb n n ≡ true = ground arith in
      let down : leb n 1 ≡ false = ground arith in
      deliver-answer (batch_at n n []) r refl a ∙ rw (some_batch, same, more, within, down) refl

  -- From the second reply on.
  deliver_all-joined :
      (n : ℕ) (o : List Bytes) (r : Bytes) (rs : List Bytes)
      → suc (length rs) < n
      → All IsAnswered (r ∷ rs)
      → (bufs : List Bytes) × (deliver_all c (batch_at n (suc (length rs)) o) (r ∷ rs)
          ≡ finished (o ++ bufs))
        × (flatten bufs ≡ joined (r ∷ rs))
  unfolding flatten
  deliver_all-joined n o r [] h (a, more) =
      (((text r ++ (b']' ∷ [])) ∷ []), deliver-last n o r h a, append-nil _)
  deliver_all-joined n o r (q ∷ rs) h (a, more) =
      let buf = text r ++ (b',' ∷ []) in
      let rest = deliver_all-joined n (o ++ (buf ∷ [])) q rs (omega arith) more in
      let k : suc (suc (length rs)) - 1 ≡ suc (length rs) = omega arith in
      (
        buf ∷ rest.0,
        ap (λ d. deliver_all c d (q ∷ rs))
              (deliver-next n (suc (suc (length rs))) o r (omega arith) h a ∙ rw k refl)
            ∙ rest.1
            ∙ ap finished (append_assoc o (buf ∷ []) rest.0),
        ap (λ t. buf ++ t) rest.2 ∙ append_assoc (text r) (b',' ∷ []) (joined (q ∷ rs)),
      )

  -- Where the codec has a text that is not empty for each of two or more replies, and no error
  -- buffer is set: once all replies of the batch are delivered, the buffers together are `[`, the
  -- texts with commas between them, and `]`; the counts are back at 0, and the length of the
  -- response is set to 0.
  pub deliver_all-batch :
      (r q : Bytes) (rs : List Bytes)
      → All IsAnswered (r ∷ q ∷ rs)
      → (bufs : List Bytes) × (deliver_all c
            (batch_at (2 + length rs) (2 + length rs) [])
            (r ∷ q ∷ rs)
          ≡ finished bufs)
        × (flatten bufs ≡ b'[' ∷ joined (r ∷ q ∷ rs))
  unfolding flatten
  deliver_all-batch r q rs (a, more) =
      let n = 2 + length rs in
      let buf = b'[' ∷ (text r ++ (b',' ∷ [])) in
      let k : n - 1 ≡ suc (length rs) = omega arith in
      let rest = deliver_all-joined n (buf ∷ []) q rs (omega arith) more in
      (
        buf ∷ rest.0,
        ap (λ d. deliver_all c d (q ∷ rs)) (deliver-first n r (omega arith) a ∙ rw k refl) ∙ rest.1,
        ap (λ t. buf ++ t) rest.2
            ∙ ap (λ t. b'[' ∷ t) (append_assoc (text r) (b',' ∷ []) (joined (q ∷ rs))),
      )
