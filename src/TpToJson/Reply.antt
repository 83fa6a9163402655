-- ===== src/TpToJson/Reply.antt =====
-- The texts for whole replies.
use nginx_upstream_module.Common.{
  ℕ, [], true, false, Bytes, length, ◌<◌, ◌≡◌, ◌≢◌, ◌++◌, some, Bool, none, ◌∷◌, ◌-◌, ◌+◌, ◌==◌, ap,
  ◌≤◌, ltb, length-append, arith, ◌∙◌, refl, Option, ◌&&◌, not,
}
use nginx_upstream_module.TpToJson.Codec.{
  Unpack, TpReply, transcode_result, reply_json, Transcoded, tp_reply2json_transcode, result_head,
  behind_printed, transcode_internal, tp2json_create, close, error_text, completed, returned,
  transcode_read, transcode_by_error,
}
use nginx_upstream_module.TpToJson.State.{Writer, Printed, print, wrote}
use nginx_upstream_module.TpToJson.Value.{Value, text, tokens, depth, has_map}
use nginx_upstream_module.JsonToTp.Codec.{TtResult, transcode_error, transcode_ok, tnt_error}
use nginx_upstream_module.TpToJson.Steps.{at, print-at}
use nginx_upstream_module.TpToJson.Openings.{spare}
use nginx_upstream_module.TpToJson.Render.{tp2json_transcode_internal-tokens}

-- What is completed of a text with its last bracket.
completed-close :
    (w : Writer) (rc : TtResult)
    → 0 < w.room
    → rc ≢ transcode_error
    → completed (close rc w) ≡ some (w.out ++ (b'}' ∷ []))
completed-close w rc h ne =
    let some_room : (w.room == 0) ≡ false = ground arith in
    let some_text : (length (w.out ++ (b'}' ∷ [])) == 0) ≡ false =
      ground (arith, length-append w.out (b'}' ∷ [])) in
    rw some_room (go rc ne some_text)
  where
    go :
        (q : TtResult)
        → q ≢ transcode_error
        → (length (w.out ++ (b'}' ∷ [])) == 0) ≡ false
        → completed (returned q (wrote w (b'}' ∷ []))) ≡ some (w.out ++ (b'}' ∷ []))
    go transcode_ok n e = rw e refl
    go tnt_error n e = rw e refl
    go transcode_error n e = absurd (n refl)

module _ (u : Unpack) (fuel : ℕ) where
  -- `{"id":N,"result":V}`.
  abbrev pub result_text : TpReply → Value → Bytes
  result_text r v = (result_head r ++ text u.formats v) ++ (b'}' ∷ [])

  after_head : ℕ → Printed → Transcoded
  after_head size p = behind_printed size p (λ w ts.
      behind_printed size (transcode_internal u fuel w ts) (λ w' ts'. close transcode_ok w'))

  transcode_result-head :
      (r : TpReply) (size : ℕ)
      → length (result_head r) < size
      → transcode_result u fuel false size (tp2json_create size 0) r
        ≡ behind_printed size
            (transcode_internal u fuel
              (at
                (tp2json_create size 0)
                (result_head r)
                (size - length (result_head r))
                false
                false)
              r.data_)
            (λ w ts. close transcode_ok w)
  unfolding transcode_result after_head
  transcode_result-head r size h =
      ap (after_head size)
        (print-at (tp2json_create size 0) [] (result_head r) size false false r.data_ h)

  -- The two tests that come before the printing.
  tp_reply2json_transcode-read :
      (input : Bytes) (r : TpReply) (error : Option Bytes) (pure_result : Bool) (skip size : ℕ)
      → u.tp_reply input ≡ some r
      → r.error ≡ error
      → tp_reply2json_transcode u fuel pure_result skip size input
        ≡ transcode_by_error u fuel pure_result size (tp2json_create size skip) r error
  unfolding tp_reply2json_transcode transcode_read
  tp_reply2json_transcode-read input r error pure_result skip size e n =
      ap (transcode_read u fuel pure_result size (tp2json_create size skip)) e
      ∙ ap (transcode_by_error u fuel pure_result size (tp2json_create size skip) r) n

  -- A reply that is read, has no error and holds a value, with nesting within the fuel and a buffer
  -- that the text fits with 21 bytes to spare, becomes `{"id":N,"result":V}`, where neither pure
  -- results nor arrays to skip are asked for.
  pub reply_json-result :
      (input : Bytes) (r : TpReply) (v : Value) (size : ℕ)
      → u.tp_reply input ≡ some r
      → r.error ≡ none
      → r.data_ ≡ tokens v []
      → depth v ≤ fuel
      → length (result_text r v) + spare ≤ size
      → reply_json u fuel false 0 size input ≡ some (result_text r v)
  unfolding reply_json transcode_by_error
  reply_json-result input r v size e n d k h =
      let base = tp2json_create size 0 in
      let head = result_head r in
      let t = text u.formats v in
      let room = length-append (head ++ t) (b'}' ∷ []) in
      let both = length-append head t in
      ap completed (
        tp_reply2json_transcode-read input r none false 0 size e n
        ∙ transcode_result-head r size (omega (arith, room, both))
        ∙ ap (λ p. behind_printed size p (λ w ts. close transcode_ok w))
            (ap (λ ts. transcode_internal u fuel (at base head (size - length head) false false) ts)
                d
              ∙ tp2json_transcode_internal-tokens u.formats base v fuel head (size - length head)
                  false [] k (omega (arith, room, both))))
      ∙ completed-close
          (at base (head ++ t) (size - length head - length t) (false && not (has_map v)) false)
          transcode_ok (omega (arith, room, both)) (λ q. cc)

  -- A reply that is read and has an error, where the text fits the buffer, becomes the text of its
  -- number, its message and its converted code, whatever options are set.
  pub reply_json-error :
      (input e : Bytes) (r : TpReply) (pure_result : Bool) (skip size : ℕ)
      → u.tp_reply input ≡ some r
      → r.error ≡ some e
      → length (error_text r e) + 1 ≤ size
      → reply_json u fuel pure_result skip size input ≡ some (error_text r e ++ (b'}' ∷ []))
  unfolding reply_json transcode_by_error print
  reply_json-error input e r pure_result skip size read failed_ h =
      let fits : ltb (length (error_text r e)) size ≡ true = ground arith in
      let base = tp2json_create size skip in
      let closing : transcode_by_error u fuel pure_result size base r (some e)
          ≡ close tnt_error (wrote base (error_text r e)) =
        rw (print, fits) refl in
      ap completed
        (tp_reply2json_transcode-read input r (some e) pure_result skip size read failed_ ∙ closing)
      ∙ completed-close (wrote (tp2json_create size skip) (error_text r e)) tnt_error (omega arith)
          (λ q. cc)
