-- ===== src/JsonToTp/Codec/Text.antt =====
-- From the text of a message to the packets in the output buffer.
use nginx_upstream_module.Common.{
  ℕ, ◌≤◌, ◌≡◌, refl, arith, Bool, true, false, List, [], ◌∷◌, Bytes, length, not, ltb, none, ◌++◌,
}
use nginx_upstream_module.JsonToTp.Codec.{
  Allocs, Yajl, Ctx, yajl_json2tp_transcode, is_empty_text, parse_input, Stage,
  yajl_json2tp_complete, no_stages, fresh_transcode, returned, transcode_ok, finished, run,
  continue,
}
use nginx_upstream_module.JsonToTp.Request.{Setting, Member, requests_events, packets}
use nginx_upstream_module.Tp.{TpLib}
use nginx_upstream_module.JsonToTp.Alloc.{Reallocates}
use nginx_upstream_module.JsonToTp.State.{Ctx, Stage, no_stages, continue}
use nginx_upstream_module.JsonToTp.Machine.{start_array, end_array, run, run-nil}
use nginx_upstream_module.JsonToTp.Request.Batch.{TakesEach, run-batch}
use nginx_upstream_module.JsonToTp.Request.Between.{idle}

-- All memory is given.
abbrev pub all_given : Allocs
all_given = record { ctx = true; stack = true; yaf = true; hand = true }

-- What a codec is set up with.
abbrev pub setting_of : Bytes → Bytes → Setting
setting_of method bound = record {
  read_method = not (ltb 0 (length method));
  preset = method;
  bound = bound;
}

module _ (lib : TpLib) (realloc : ℕ → Bool) (gives : Reallocates realloc) (yajl : Yajl) where
  open yajl use {fresh, events, well_formed, after, last_events, complete}

  -- The text is one that the parser takes for a batch of these requests. Whatever lies behind it,
  -- its first two bytes are not those of an empty text.
  pub record Reads (text : Bytes) (rs : List (List Member)) : Type 0 where
    pub not_empty_text : (behind : Bytes) → is_empty_text (text ++ behind) ≡ false
    pub events_are : events fresh text ≡ start_array ∷ requests_events rs (end_array ∷ [])
    pub accepted : well_formed fresh text ≡ true
    pub no_more : last_events (after fresh text) ≡ []
    pub completed : complete (after fresh text) ≡ true

  abbrev pub start_ctx : Bytes → Bytes → ℕ → Ctx
  start_ctx method bound size = record {
    stack = [];
    allocated = 16;
    tp = record { out = []; room = size; size = none; sync = none };
    stage = Stage.init;
    batch_mode_on = false;
    been_stages = no_stages;
    read_method = not (ltb 0 (length method));
    transcode_first_enter = false;
    tc = record (fresh_transcode method) { data_ = bound };
  }

  -- The callbacks on such a text all go on, and the text can be completed.
  pub run-Reads :
      (text method bound : Bytes) (size : ℕ) (rs : List (List Member))
      → Reads text rs
      → length rs ≤ 16385
      → TakesEach rs
      → length (packets lib (setting_of method bound) rs) ≤ size
      → (s : Ctx) × (run lib realloc
            (events fresh text)
            (record (start_ctx method bound size) { transcode_first_enter = true })
          ≡ continue s)
        × (yajl_json2tp_complete lib realloc yajl s (after fresh text)
            ≡ finished (length (packets lib (setting_of method bound) rs)) s)
        × (s.tp.out ≡ packets lib (setting_of method bound) rs)
        × (s.tc.batch_size ≡ length rs)
  unfolding yajl_json2tp_complete
  run-Reads text method bound size rs r small t h =
      let start = start_ctx method bound size in
      let base = record start { transcode_first_enter = true } in
      let b = run-batch lib realloc gives base rs start.tp 16 (omega arith) small t h in
      let on = record base { batch_mode_on = true } in
      let s = idle on b.1 (length rs) b.0 in
      let ended : run lib realloc (last_events (after fresh text)) s ≡ continue s =
        rw r.no_more (run-nil lib realloc s) in
      (s, rw r.events_are b.3, ground (arith, r.completed, ended, lib.used_law b.1, b.2), b.2, refl)

  -- Where a text, whose first two bytes are not those of an empty one whatever lies behind it, is
  -- one that the parser takes for a batch of at most 16385 requests, each with at least one member,
  -- an id of 32 bits and no deeper nesting than 240 containers, and the packets of these requests
  -- fit the buffer: transcoding the text from the start succeeds, completing it succeeds with the
  -- length of the packets as the size, the buffer holds exactly the packets in order, and the
  -- number of requests is counted.
  pub transcode-Reads :
      (text behind method bound : Bytes) (size : ℕ) (rs : List (List Member))
      → Reads text rs
      → length rs ≤ 16385
      → TakesEach rs
      → length (packets lib (setting_of method bound) rs) ≤ size
      → (s s' : Ctx) × (yajl_json2tp_transcode lib realloc yajl
            (start_ctx method bound size)
            fresh
            text
            behind
          ≡ returned transcode_ok s (after fresh text))
        × (yajl_json2tp_complete lib realloc yajl s (after fresh text)
            ≡ finished (length (packets lib (setting_of method bound) rs)) s')
        × (s'.tp.out ≡ packets lib (setting_of method bound) rs)
        × (s'.tc.batch_size ≡ length rs)
  unfolding yajl_json2tp_transcode parse_input
  transcode-Reads text behind method bound size rs r small t h =
      let p = run-Reads text method bound size rs r small t h in
      (p.0, p.0, ground (arith, r.not_empty_text behind, r.accepted, p.1), p.2, p.3, p.4)
