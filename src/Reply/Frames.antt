-- ===== src/Reply/Frames.antt =====
-- A stream of whole replies.
use mathlib.Core.List.{flatten}
use nginx_upstream_module.Common.{
  ℕ, [], List, Bytes, ◌≤◌, ◌∷◌, All, length, ◌≡◌, ◌++◌, take, some, if◌then◌else◌, ◌==◌, ◌∙◌, refl,
  ◌-◌, ◌+◌, drop, append-nil, take-append-drop, suc, arith, false, ap, length-drop, length-take,
  sym, append_assoc,
}
use nginx_upstream_module.Reply.Filter.{Codecs, Delivery, tp_read_payload, deliver}
use nginx_upstream_module.Reply.Reference.{
  after_header, reads, header, body, resume, deliver_all, reads_full_header, reads_full_body,
}

module _ (c : Codecs) where
  -- A reply behind its length, which counts all of it.
  pub record IsFrame (frame : Bytes) : Type 0 where
    pub long : 5 ≤ length frame
    pub counted : tp_read_payload c (take 5 frame) ≡ some (length frame)

  after_header-counted :
      (d : Delivery) (mem : Bytes) (size : ℕ)
      → tp_read_payload c mem ≡ some size
      → after_header c d mem
        ≡ (if size == 5 then some (header [], deliver c d mem) else some (body mem (size - 5), d))
  unfolding after_header
  after_header-counted d mem size e = rw (after_header, e) refl

  -- What is read behind the five bytes of a length.
  resume-counted :
      (head tail ys : Bytes) (d : Delivery)
      → resume c
          (if 5 + length tail == 5
            then some (header [], deliver c d head)
            else some (body head (5 + length tail - 5), d))
          (tail ++ ys)
        ≡ reads c (header []) (deliver c d (head ++ tail)) ys
  resume-counted head [] ys d = rw append-nil refl
  resume-counted head (t ∷ ts) ys d =
      let more : (5 + suc (length ts) == 5) ≡ false = ground arith in
      rw more
        (reads_full_body c (t ∷ ts) ys head (5 + suc (length ts) - 5) d (omega arith) (omega arith))

  reads-counted :
      (head tail ys : Bytes) (d : Delivery)
      → length head ≡ 5
      → tp_read_payload c head ≡ some (5 + length tail)
      → reads c (header []) d (head ++ (tail ++ ys))
        ≡ reads c (header []) (deliver c d (head ++ tail)) ys
  reads-counted head tail ys d l e =
      reads_full_header c head (tail ++ ys) [] d (omega arith) (omega arith)
      ∙ ap (λ o. resume c o (tail ++ ys)) (after_header-counted d head (5 + length tail) e)
      ∙ resume-counted head tail ys d

  reads-frame :
      (frame ys : Bytes) (d : Delivery)
      → IsFrame frame
      → reads c (header []) d (frame ++ ys) ≡ reads c (header []) (deliver c d frame) ys
  reads-frame frame ys d i =
      let head = take 5 frame in
      let tail = drop 5 frame in
      let whole : head ++ tail ≡ frame = take-append-drop 5 frame in
      let size : length frame ≡ 5 + length tail = omega (arith, length-drop 5 frame, i.long) in
      let l : length head ≡ 5 = omega (arith, length-take 5 frame, i.long) in
      ap (λ x. reads c (header []) d (x ++ ys)) (sym whole)
      ∙ ap (reads c (header []) d) (append_assoc head tail ys)
      ∙ reads-counted head tail ys d l (i.counted ∙ ap (λ n. some n) size)
      ∙ ap (λ x. reads c (header []) (deliver c d x) ys) whole

  pub reads-frames :
      (frames : List Bytes) (d : Delivery)
      → All IsFrame frames
      → reads c (header []) d (flatten frames) ≡ some (header [], deliver_all c d frames)
  unfolding flatten reads
  reads-frames [] d h = refl
  reads-frames (x ∷ xs) d (i, is) =
      reads-frame x (flatten xs) d i ∙ reads-frames xs (deliver c d x) is
