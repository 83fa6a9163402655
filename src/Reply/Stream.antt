-- ===== src/Reply/Stream.antt =====
-- The buffers of a response, one after the other.
use mathlib.Core.Option.{some-injective}
use mathlib.Core.List.{flatten}
use nginx_upstream_module.Common.{
  List, Bytes, Option, All, [], ◌∷◌, ◌≡◌, ◌<◌, ◌∙◌, length, some, none, sym, ap, inl, inr, subst,
  arith,
}
use nginx_upstream_module.Reply.Filter.{Codecs, Reader, Filtered, Delivery, filter}
use nginx_upstream_module.Reply.Reference.{reads-append, reads, Phase, resume}
use nginx_upstream_module.Reply.Chunks.{Is}
use nginx_upstream_module.Reply.Loop.{Agrees, filter-Agrees}

module _ (c : Codecs) where
  -- Buffer after buffer, as nginx hands them over.
  unfoldable pub feed : Reader → Delivery → List Bytes → Reader × Delivery
  feed r d [] = (r, d)
  feed r d (x ∷ xs) = let f = filter c (length x) r d x in feed f.0 f.1 xs

  goes_behind :
      (f : Filtered c) (o : Option (Phase × Delivery)) (ys : Bytes) (out : Phase × Delivery)
      → Agrees c f o
      → resume c o ys ≡ some out
      → (p : Phase) × Is f.0 p × (reads c p f.1 ys ≡ some out)
  goes_behind f o ys out (inl (p, i, _, _, s)) e = (p, i, sym (ap (λ q. resume c q ys) s) ∙ e)
  goes_behind f o ys out (inr (_, s)) e =
      let impossible : none ≡ some out = sym (ap (λ q. resume c q ys) s) ∙ e in cc

  ends :
      (p : Phase) (r : Reader) (d : Delivery) (out : Phase × Delivery)
      → Is r p
      → reads c p d [] ≡ some out
      → Is r out.0 × (d ≡ out.1)
  unfolding reads
  ends p r d out i e =
      let same : (p, d) ≡ out = some-injective (p, d) out e in
      (subst (λ q. Is r q) (ap (λ o. o.0) same) i, ap (λ o. o.1) same)

  -- However the bytes of a stream are cut into buffers that are not empty: where reading the whole
  -- stream byte by byte finds no bad length, the filter, called buffer after buffer, has delivered
  -- the same replies, and its reader stands at the same place.
  pub feed-reads :
      (chunks : List Bytes) (p : Phase) (r : Reader) (d : Delivery) (out : Phase × Delivery)
      → Is r p
      → All (λ x. 0 < length x) chunks
      → reads c p d (flatten chunks) ≡ some out
      → Is (feed r d chunks).0 out.0 × ((feed r d chunks).1 ≡ out.1)
  unfolding feed flatten
  feed-reads [] p r d out i h e = ends p r d out i e
  feed-reads (x ∷ xs) p r d out i (h, hs) e =
      let f = filter c (length x) r d x in
      let next =
        goes_behind f (reads c p d x) (flatten xs) out
          (filter-Agrees c (length x) p r d x i h (omega arith))
          (sym (reads-append c x (flatten xs) p d) ∙ e) in
      feed-reads xs next.0 f.0 f.1 out next.1 hs next.2
