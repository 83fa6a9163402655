-- ===== src/Handlers/Event.antt =====
-- The event that wakes the upstream: ngx_http_tnt_wakeup_dying_upstream, from its text to its packet.
use nginx_upstream_module.Common.{
  ℕ, ◌≡◌, ◌≤◌, ◌+◌, ◌*◌, ◌∷◌, ◌∙◌, [], List, Bytes, Bool, true, some, refl, ap, arith, codes,
  length, if_true, bytes_eq,
}
use nginx_upstream_module.Handlers.Body.{fd_event, send_once, sent, wakeup_dying_upstream}
use nginx_upstream_module.Handlers.Context.{Context}
use nginx_upstream_module.Handlers.Pieces.{parse_input-continue, transcode_fresh}
use nginx_upstream_module.Handlers.Errors.{take-all}
use nginx_upstream_module.Tp.{TpLib}
use nginx_upstream_module.JsonToTp.Alloc.{Reallocates, IsAlloc}
use nginx_upstream_module.JsonToTp.Codec.{
  Yajl, Allocs, tp_transcode_init, yajl_json2tp_complete, finished,
}
use nginx_upstream_module.JsonToTp.Codec.Text.{all_given, setting_of, start_ctx}
use nginx_upstream_module.JsonToTp.Machine.{run, run-nil}
use nginx_upstream_module.JsonToTp.Request.{Member, method, params, packet, request_events}
use nginx_upstream_module.JsonToTp.Request.Between.{idle}
use nginx_upstream_module.JsonToTp.Request.Whole.{run-request_events}
use nginx_upstream_module.JsonToTp.State.{Ctx, continue}
use nginx_upstream_module.JsonToTp.Value.{Items}

-- The request that the event is.
abbrev pub event : List Member
event = method (codes "__nginx_tnt_event") ∷ params Items.none ∷ []

-- The parser takes the text of the event for this request.
pub record ReadsEvent (yajl : Yajl) : Type 0 where
  pub events_are : yajl.events yajl.fresh fd_event ≡ request_events event []
  pub accepted : yajl.well_formed yajl.fresh fd_event ≡ true
  pub no_more : yajl.last_events (yajl.after yajl.fresh fd_event) ≡ []
  pub completed : yajl.complete (yajl.after yajl.fresh fd_event) ≡ true

module _ (lib : TpLib) (realloc : ℕ → Bool) (gives : Reallocates realloc) (yajl : Yajl) where
  open yajl use {fresh, events, after, last_events}

  abbrev pub event_packet : Bytes
  event_packet = packet lib (setting_of [] []) event

  init_start :
      (size : ℕ)
      → tp_transcode_init lib all_given [] size ≡ some (start_ctx lib realloc gives yajl [] [] size)
  unfolding tp_transcode_init
  init_start size = rw lib.init_law refl

  run-event :
      (size : ℕ)
      → ReadsEvent yajl
      → length event_packet ≤ size
      → (s : Ctx) × (run lib realloc
            (events fresh fd_event)
            (record (start_ctx lib realloc gives yajl [] [] size) { transcode_first_enter = true })
          ≡ continue s)
        × (yajl_json2tp_complete lib realloc yajl s (after fresh fd_event)
            ≡ finished (length event_packet) s)
        × (s.tp.out ≡ event_packet)
        × (s.tc.batch_size ≡ 1)
  unfolding yajl_json2tp_complete
  run-event size reads room =
      let start = start_ctx lib realloc gives yajl [] [] size in
      let base = record start { transcode_first_enter = true } in
      let al : IsAlloc 16 0 = record {
        holds = omega arith;
        bounded = omega arith;
        stepped = refl;
      } in
      let one =
        run-request_events lib realloc gives base (method (codes "__nginx_tnt_event"))
          (params Items.none ∷ []) [] start.tp 0 16 al (omega arith) (tt, (omega arith, tt)) room in
      let s = idle base one.1 1 one.0 in
      let ended : run lib realloc (last_events (after fresh fd_event)) s ≡ continue s =
        rw reads.no_more (run-nil lib realloc s) in
      (
        s,
        rw reads.events_are (one.5 ∙ run-nil lib realloc s),
        ground (arith, reads.completed, ended, lib.used_law one.1, one.3),
        one.3,
        refl,
      )

  send_once-event :
      (ctx : Context) (size : ℕ)
      → ReadsEvent yajl
      → length event_packet ≤ size
      → send_once lib realloc yajl all_given ctx size fd_event ≡ sent event_packet ctx
  unfolding send_once bytes_eq
  send_once-event ctx size reads room =
      let ran = run-event size reads room in
      let s = ran.0 in
      let start = start_ctx lib realloc gives yajl [] [] size in
      let transcoded =
        transcode_fresh lib realloc yajl start fresh fd_event (0 ∷ []) refl refl
        ∙ parse_input-continue lib realloc yajl (record start { transcode_first_enter = true }) s
            fresh fd_event ran.1 reads.accepted in
      let whole = take-all event_packet (length event_packet) (omega arith) in
      rw (send_once, init_start size, transcoded, ran.2, ran.3, ran.4, whole) refl

  -- With the memory for it, and a buffer that the packet fits, the event is sent.
  pub wakeup-event :
      (allocs : Allocs) (in_multiplier : ℕ) (ctx : Context) (memory : Bool)
      → memory ≡ true
      → allocs ≡ all_given
      → ReadsEvent yajl
      → length event_packet ≤ (length fd_event + 1) * in_multiplier
      → wakeup_dying_upstream lib realloc yajl memory allocs in_multiplier ctx
        ≡ sent event_packet ctx
  unfolding wakeup_dying_upstream
  wakeup-event allocs in_multiplier ctx memory given all reads room =
      let size = (length fd_event + 1) * in_multiplier in
      if_true memory _ _ given
      ∙ ap (λ a. send_once lib realloc yajl a ctx size fd_event) all
      ∙ send_once-event ctx size reads room
