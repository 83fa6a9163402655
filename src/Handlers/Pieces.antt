-- ===== src/Handlers/Pieces.antt =====
-- A body that comes in several buffers.
use nginx_upstream_module.Common.{
  List, Bytes, ℕ, ◌∷◌, All, ◌++◌, Bool, ◌≡◌, [], false, true, refl, append-nil, subst, ◌∙◌, ap, sym,
}
use nginx_upstream_module.JsonToTp.Codec.{
  Yajl, is_empty_text, parse_input, yajl_json2tp_transcode, Transcoded, transcode_ok,
}
use nginx_upstream_module.Tp.{TpLib}
use nginx_upstream_module.Dml.Format.{BodyBuf}
use nginx_upstream_module.Handlers.Body.{feed_bufs, fed, and_feed}
use nginx_upstream_module.JsonToTp.State.{Ctx, continue}
use nginx_upstream_module.JsonToTp.Machine.{run}
use nginx_upstream_module.JsonToTp.Machine.Pieces.{run-append, run_entered}

-- The bytes of a body, whose buffers are all in memory.
abbrev pub body_text : List BodyBuf → Bytes
body_text [] = []
body_text (b ∷ bs) = b.bytes ++ body_text bs

abbrev pub InMemory : List BodyBuf → Type 0
InMemory bs = All (λ b. b.in_file ≡ false) bs

-- YAJL reads its input in pieces: for a well formed text the pieces are well formed, and their
-- callbacks, one after the other, are those for the whole.
pub record ReadsPieces (yajl : Yajl) : Type 0 where
  pub first_well_formed :
      (h : yajl.Handle) (a b : Bytes)
      → yajl.well_formed h (a ++ b) ≡ true
      → yajl.well_formed h a ≡ true
  pub then_well_formed :
      (h : yajl.Handle) (a b : Bytes)
      → yajl.well_formed h (a ++ b) ≡ true
      → yajl.well_formed (yajl.after h a) b ≡ true
  pub events_pieces :
      (h : yajl.Handle) (a b : Bytes)
      → yajl.well_formed h (a ++ b) ≡ true
      → yajl.events h (a ++ b) ≡ yajl.events h a ++ yajl.events (yajl.after h a) b
  pub after_pieces :
      (h : yajl.Handle) (a b : Bytes)
      → yajl.well_formed h (a ++ b) ≡ true
      → yajl.after h (a ++ b) ≡ yajl.after (yajl.after h a) b

module _ (lib : TpLib) (realloc : ℕ → Bool) (yajl : Yajl) where
  open yajl use {Handle, fresh, events, well_formed, after}

  pub parse_input-continue :
      (s s' : Ctx) (h : Handle) (b : Bytes)
      → run lib realloc (events h b) s ≡ continue s'
      → well_formed h b ≡ true
      → parse_input lib realloc yajl s h b ≡ Transcoded.returned transcode_ok s' (after h b)
  unfolding parse_input
  parse_input-continue s s' h b e w = rw (parse_input, e, w) refl

  transcode_entered :
      (s : Ctx) (h : Handle) (b behind : Bytes)
      → s.transcode_first_enter ≡ true
      → yajl_json2tp_transcode lib realloc yajl s h b behind ≡ parse_input lib realloc yajl s h b
  unfolding yajl_json2tp_transcode
  transcode_entered s h b behind e = rw (yajl_json2tp_transcode, e) refl

  fed_on :
      (bs : List BodyBuf) (b : BodyBuf) (s : Ctx) (h : Handle)
      → b.in_file ≡ false
      → feed_bufs lib realloc yajl (b ∷ bs) s h
        ≡ and_feed lib realloc yajl
            (yajl_json2tp_transcode lib realloc yajl s h b.bytes b.behind)
            (feed_bufs lib realloc yajl bs)
  unfolding feed_bufs
  fed_on bs b s h e = rw e refl

  pub transcode_fresh :
      (s : Ctx) (h : Handle) (b behind : Bytes)
      → s.transcode_first_enter ≡ false
      → is_empty_text (b ++ behind) ≡ false
      → yajl_json2tp_transcode lib realloc yajl s h b behind
        ≡ parse_input lib realloc yajl (record s { transcode_first_enter = true }) h b
  unfolding yajl_json2tp_transcode
  transcode_fresh s h b behind e some_text = rw (e, some_text) refl

  feed_bufs-pieces :
      (bs : List BodyBuf) (b : BodyBuf) (s s' : Ctx) (h : Handle)
      → ReadsPieces yajl
      → InMemory (b ∷ bs)
      → s.transcode_first_enter ≡ true
      → well_formed h (body_text (b ∷ bs)) ≡ true
      → run lib realloc (events h (body_text (b ∷ bs))) s ≡ continue s'
      → feed_bufs lib realloc yajl (b ∷ bs) s h ≡ fed s' (after h (body_text (b ∷ bs)))
  unfolding feed_bufs
  feed_bufs-pieces [] b s s' h law (m, ms) entered w r =
      rw
        (
          m,
          transcode_entered s h b.bytes b.behind entered,
          append-nil b.bytes,
          parse_input-continue s s' h b.bytes
              (subst (λ t. run lib realloc (events h t) s ≡ continue s') (append-nil b.bytes) r)
              (subst (λ t. well_formed h t ≡ true) (append-nil b.bytes) w),
        )
        refl
  feed_bufs-pieces (c ∷ bs) b s s' h law (m, ms) entered w r =
      let rest = body_text (c ∷ bs) in
      let cut =
        run-append lib realloc (events h b.bytes) (events (after h b.bytes) rest) s s' (
          subst (λ es. run lib realloc es s ≡ continue s') (law.events_pieces h b.bytes rest w)
            r) in
      rw
        (
          m,
          transcode_entered s h b.bytes b.behind entered,
          parse_input-continue s cut.0 h b.bytes cut.1 (law.first_well_formed h b.bytes rest w),
          law.after_pieces h b.bytes rest w,
        )
        (feed_bufs-pieces bs c cut.0 s' (after h b.bytes) law ms
          (run_entered lib realloc (events h b.bytes) s cut.0 cut.1 ∙ entered)
          (law.then_well_formed h b.bytes rest w) cut.2)

  -- The first two bytes from the first buffer on are looked at for an empty text.
  pub feed_bufs-fresh :
      (bs : List BodyBuf) (b : BodyBuf) (s s' : Ctx)
      → ReadsPieces yajl
      → InMemory (b ∷ bs)
      → s.transcode_first_enter ≡ false
      → is_empty_text (b.bytes ++ b.behind) ≡ false
      → well_formed fresh (body_text (b ∷ bs)) ≡ true
      → run lib realloc
          (events fresh (body_text (b ∷ bs)))
          (record s { transcode_first_enter = true })
        ≡ continue s'
      → feed_bufs lib realloc yajl (b ∷ bs) s fresh ≡ fed s' (after fresh (body_text (b ∷ bs)))
  feed_bufs-fresh bs b s s' law m new some_text w r =
      let entered = record s { transcode_first_enter = true } in
      let go_on = λ (t : Transcoded lib realloc yajl).
        and_feed lib realloc yajl t (feed_bufs lib realloc yajl bs) in
      fed_on bs b s fresh m.0
      ∙ ap go_on (transcode_fresh s fresh b.bytes b.behind new some_text)
      ∙ ap go_on (sym (transcode_entered entered fresh b.bytes b.behind refl))
      ∙ sym (fed_on bs b entered fresh m.0)
      ∙ feed_bufs-pieces bs b entered s' fresh law m refl w r
