-- ===== src/Reply/Answers.antt =====
-- The filter with the codec TP_REPLY_TO_JSON: from the bytes of a batch's replies to the client's
-- text.
use mathlib.Core.List.{flatten}
use nginx_upstream_module.Common.{
  ℕ, [], List, Bytes, Bool, All, false, ◌≡◌, ◌∷◌, some, none, ◌<◌, length, ◌≤◌, ◌+◌, ap, ◌∙◌, arith,
  length-append, ◌++◌,
}
use nginx_upstream_module.Reply.Filter.{Codecs, Reader}
use nginx_upstream_module.TpToJson.Codec.{Unpack, TpReply, reply_json, result_head}
use nginx_upstream_module.TpToJson.Value.{depth, tokens, Value, text}
use nginx_upstream_module.Reply.Frames.{IsFrame, reads-frames}
use nginx_upstream_module.TpToJson.Reply.{result_text, reply_json-result}
use nginx_upstream_module.Reply.Batch.{IsAnswered, batch_at, finished, joined, deliver_all-batch}
use nginx_upstream_module.Reply.Chunks.{Is}
use nginx_upstream_module.Reply.Reference.{header, deliver_all, reads}
use nginx_upstream_module.Reply.Stream.{feed, feed-reads}
use nginx_upstream_module.TpToJson.Openings.{spare}

module _ (mp_check mp_is_uint : Bytes → Bool) (mp_decode_uint : Bytes → ℕ) (u : Unpack) (fuel : ℕ)
    (output_size : Bytes → ℕ) where
  -- The codec as the filter uses it, with the options `tnt_pure_result` and
  -- `tnt_multireturn_skip_count` of the location, and the size of the buffer that a reply is given.
  abbrev pub json_codecs : Bool → ℕ → Codecs
  json_codecs pure_result skip = record {
    mp_check = mp_check;
    mp_is_uint = mp_is_uint;
    mp_decode_uint = mp_decode_uint;
    reply_to_json = λ reply. reply_json u fuel pure_result skip (output_size reply) reply;
  }

  -- A whole reply without an error, with this answer and this value, and a buffer for its text.
  pub record IsResult (reply : Bytes → TpReply) (value : Bytes → Value) (frame : Bytes)
      : Type 0 where
    pub is_frame : IsFrame (json_codecs false 0) frame
    pub read : u.tp_reply frame ≡ some (reply frame)
    pub no_error : (reply frame).error ≡ none
    pub read_value : (reply frame).data_ ≡ tokens (value frame) []
    pub shallow : depth (value frame) ≤ fuel
    pub room : length (result_text u fuel (reply frame) (value frame)) + spare ≤ output_size frame

  module _ (reply : Bytes → TpReply) (value : Bytes → Value) where
    abbrev pub answer_text : Bytes → Bytes
    answer_text frame = result_text u fuel (reply frame) (value frame)

    IsResult-IsAnswered :
        (frame : Bytes)
        → IsResult reply value frame
        → IsAnswered (json_codecs false 0) answer_text frame
    IsResult-IsAnswered frame i = record {
      answer =
          reply_json-result u fuel frame (reply frame) (value frame) (output_size frame) i.read
            i.no_error i.read_value i.shallow i.room;
      not_empty = ground (
        arith,
        length-append (result_head (reply frame) ++ text u.formats (value frame)) (b'}' ∷ []),
      );
    }

    All-IsFrame :
        (frames : List Bytes)
        → All (IsResult reply value) frames
        → All (IsFrame (json_codecs false 0)) frames
    All-IsFrame [] h = tt
    All-IsFrame (x ∷ xs) (i, is) = (i.is_frame, All-IsFrame xs is)

    All-IsAnswered :
        (frames : List Bytes)
        → All (IsResult reply value) frames
        → All (IsAnswered (json_codecs false 0) answer_text) frames
    All-IsAnswered [] h = tt
    All-IsAnswered (x ∷ xs) (i, is) = (IsResult-IsAnswered x i, All-IsAnswered xs is)

    -- Where neither pure results nor arrays to skip are asked for, and the bytes of a batch of two
    -- or more replies, each with its length, a result and a buffer that its text fits with 21 bytes
    -- to spare, arrive in any pieces that are not empty, and the nesting is within the fuel: what
    -- is delivered is, all buffers together, `[`, the texts `{"id":N,"result":V}` with commas
    -- between them, and `]`, and the batch is ended.
    pub feed-batch :
        (chunks : List Bytes) (a b : Bytes) (frames : List Bytes) (r : Reader)
        → Is r (header [])
        → All (λ x. 0 < length x) chunks
        → flatten chunks ≡ flatten (a ∷ b ∷ frames)
        → All (IsResult reply value) (a ∷ b ∷ frames)
        → (bufs : List Bytes) × ((feed
              (json_codecs false 0)
              r
              (batch_at (2 + length frames) (2 + length frames) [])
              chunks).1
            ≡ finished bufs)
          × (flatten bufs ≡ b'[' ∷ joined (json_codecs false 0) answer_text (a ∷ b ∷ frames))
    feed-batch chunks a b frames r i full same h =
        let start = batch_at (2 + length frames) (2 + length frames) [] in
        let all = a ∷ b ∷ frames in
        let batch =
          deliver_all-batch (json_codecs false 0) answer_text a b frames (All-IsAnswered all h) in
        let fed =
          feed-reads (json_codecs false 0) chunks (header []) r start
            (header [], deliver_all (json_codecs false 0) start all) i full
            (ap (reads (json_codecs false 0) (header []) start) same
              ∙ reads-frames (json_codecs false 0) all start (All-IsFrame all h)) in
        (batch.0, fed.1 ∙ batch.1, batch.2)
