-- ===== src/JsonToTp/Request/Batch.antt =====
-- A message: one request, or an array of requests; and the limits of a batch.
use nginx_upstream_module.Common.{
  ℕ, suc, ◌+◌, ◌≤◌, ◌≡◌, refl, sym, ◌∙◌, arith, List, [], ◌∷◌, ◌++◌, append_assoc, append-nil,
  length, length-append, Bool, true, none, ◌<◌, some, Bytes, codes,
}
use nginx_upstream_module.Tp.{Tp, TpLib, tp_call_wof_add_params, reserve_add, accepted}
use nginx_upstream_module.JsonToTp.Request.Between.{idle, opened}
use nginx_upstream_module.JsonToTp.Request.Whole.{run-request_events, start-idle}
use nginx_upstream_module.JsonToTp.Request.{
  Member, TakesAll, Ctx, Event, packets, setting, request_events, requests_events, packet,
  member_events, method, members_events, params, id,
}
use nginx_upstream_module.JsonToTp.Alloc.{Reallocates, IsAlloc, alloc_for}
use nginx_upstream_module.JsonToTp.State.{
  Ctx, fault, continue, stack_pop, cancel, batch_too_large, say_error,
}
use nginx_upstream_module.JsonToTp.Machine.{
  Event, run, start_array, end_array, callback, run-continue, run-nil, run-fault, end_map, map_key,
  run-cancel,
}
use nginx_upstream_module.JsonToTp.Containers.{
  yajl_start_array, yajl_end_array, yajl_end_map, end_request, add_empty_params,
}
use nginx_upstream_module.JsonToTp.Callbacks.{yajl_map_key, begin_request}
use nginx_upstream_module.Common.Int.{minus}

-- Every request has a member, and the codec takes each of them.
abbrev pub TakesEach : List (List Member) → Type 0
TakesEach [] = Unit {0}
TakesEach ([] ∷ rs) = ⊥
TakesEach ((m ∷ ms) ∷ rs) = TakesAll (m ∷ ms) × TakesEach rs

module _ (lib : TpLib) (realloc : ℕ → Bool) (gives : Reallocates realloc) (base : Ctx) where
  -- The requests of a batch become their packets, in order.
  pub run-requests_events :
      (rs : List (List Member)) (es : List Event) (tp : Tp) (n a : ℕ)
      → IsAlloc a 0
      → n + length rs ≤ 16385
      → TakesEach rs
      → length (packets lib (setting base) rs) ≤ tp.room
      → (b : ℕ) × (tp' : Tp) × IsAlloc b 0
        × (tp'.out ≡ tp.out ++ packets lib (setting base) rs)
        × (run lib realloc (requests_events rs es) (idle base tp n a)
            ≡ run lib realloc es (idle base tp' (n + length rs) b))
  run-requests_events [] es tp n a al small t h =
      let e : n + 0 ≡ n = omega arith in (a, tp, al, sym (append-nil tp.out), rw e)
  run-requests_events ([] ∷ rs) es tp n a al small t h = absurd t
  run-requests_events ((m ∷ ms) ∷ rs) es tp n a al small t h =
      let p = packet lib (setting base) (m ∷ ms) in
      let ps = packets lib (setting base) rs in
      let size = length-append p ps in
      let first =
        run-request_events lib realloc gives base m ms (requests_events rs es) tp n a al
          (omega arith) t.0 (omega (arith, size)) in
      let rest =
        run-requests_events rs es first.1 (n + 1) first.0 first.2 (omega arith) t.1
          (omega (arith, size, first.4)) in
      let e : n + 1 + length rs ≡ n + suc (length rs) = omega arith in
      (
        rest.0,
        rest.1,
        rest.2,
        rest.3 ∙ rw (first.3, append_assoc tp.out p ps),
        first.5 ∙ rw (← e) rest.4,
      )

  -- The array around a batch only sets `batch_mode_on`.
  open_batch :
      (tp : Tp) (n a : ℕ)
      → callback lib realloc start_array (idle base tp n a)
        ≡ continue (idle (record base { batch_mode_on = true }) tp n a)
  unfolding callback yajl_start_array
  open_batch tp n a = refl

  close_batch :
      (tp : Tp) (n a : ℕ)
      → callback lib realloc end_array (idle base tp n a) ≡ continue (idle base tp n a)
  unfolding callback yajl_end_array stack_pop
  close_batch tp n a = refl

  refused_key :
      (key : Bytes) (tp : Tp) (n a : ℕ)
      → 16384 < n
      → callback lib realloc (map_key key) (opened base tp n a)
        ≡ cancel (say_error (opened base tp n a) 32600 batch_too_large)
  unfolding callback yajl_map_key begin_request
  refused_key key tp n a big = ground arith

  refused_member :
      (m : Member) (es : List Event) (tp : Tp) (n a : ℕ)
      → 16384 < n
      → run lib realloc (member_events m es) (opened base tp n a)
        ≡ cancel (say_error (opened base tp n a) 32600 batch_too_large)
  refused_member (method name) es tp n a big =
      run-cancel lib realloc _ _ _ _ (refused_key (codes "method") tp n a big)
  refused_member (params xs) es tp n a big =
      run-cancel lib realloc _ _ _ _ (refused_key (codes "params") tp n a big)
  refused_member (id k) es tp n a big =
      run-cancel lib realloc _ _ _ _ (refused_key (codes "id") tp n a big)

  end_opened :
      (tp : Tp) (n a : ℕ)
      → tp.size ≡ none
      → length (lib.mp_uint lib.tp_tuple) ≤ tp.room
      → callback lib realloc end_map (opened base tp n a) ≡ fault
  unfolding callback yajl_end_map end_request add_empty_params stack_pop tp_call_wof_add_params
      reserve_add accepted
  end_opened tp n a e h = ground (
    arith,
    lib.ensure_law tp (length (lib.mp_uint lib.tp_tuple)),
    lib.add_law tp (lib.mp_uint lib.tp_tuple),
  )

  -- From the idle state before any request was begun, in a buffer with room for the key of the
  -- parameters, an object with no member kills the process: its parameters are added to a request
  -- that was never begun.
  pub run-empty_object :
      (es : List Event) (tp : Tp) (n a : ℕ)
      → IsAlloc a 0
      → tp.size ≡ none
      → length (lib.mp_uint lib.tp_tuple) ≤ tp.room
      → run lib realloc (request_events [] es) (idle base tp n a) ≡ fault
  run-empty_object es tp n a al e h =
      run-continue lib realloc _ _ _ _ (start-idle lib realloc gives base tp n a al)
      ∙ run-fault lib realloc _ _ _ (end_opened tp n (alloc_for a 0) e h)

module _ (lib : TpLib) (realloc : ℕ → Bool) (gives : Reallocates realloc) (base : Ctx) where
  -- From the idle state with no request counted, and with a buffer that the packets fit, the
  -- callbacks over an array of at most 16385 requests, each of which the codec takes, all go on;
  -- they append the packet of each request in order, and count the requests.
  pub run-batch :
      (rs : List (List Member)) (tp : Tp) (a : ℕ)
      → IsAlloc a 0
      → length rs ≤ 16385
      → TakesEach rs
      → length (packets lib (setting base) rs) ≤ tp.room
      → (b : ℕ) × (tp' : Tp) × (tp'.out ≡ tp.out ++ packets lib (setting base) rs)
        × (run lib realloc (start_array ∷ requests_events rs (end_array ∷ [])) (idle base tp 0 a)
            ≡ continue (idle (record base { batch_mode_on = true }) tp' (length rs) b))
  run-batch rs tp a al small t h =
      let on = record base { batch_mode_on = true } in
      let r =
        run-requests_events lib realloc gives on rs (end_array ∷ []) tp 0 a al (omega arith) t h in
      let e : 0 + length rs ≡ length rs = omega arith in
      (
        r.0,
        r.1,
        r.3,
        run-continue lib realloc _ _ _ _ (open_batch lib realloc gives base tp 0 a)
            ∙ r.4
            ∙ run-continue lib realloc _ _ _ _
                (close_batch lib realloc gives on r.1 (0 + length rs) r.0)
            ∙ run-nil lib realloc _
            ∙ rw e,
      )

  -- From the idle state with no request counted, and with a buffer that the packets fit: in an
  -- array of more than 16385 requests, of which the codec takes the first 16385 and the next has at
  -- least one member, the callbacks stop at this one with code -32600, whatever its first key is
  -- and whatever follows it; exactly the packets of the first 16385 are written, and 16385 requests
  -- are counted.
  pub run-batch_too_large :
      (rs : List (List Member)) (m : Member) (ms : List Member) (es : List Event) (tp : Tp) (a : ℕ)
      → IsAlloc a 0
      → length rs ≡ 16385
      → TakesEach rs
      → length (packets lib (setting base) rs) ≤ tp.room
      → (s : Ctx) × (s.tp.out ≡ tp.out ++ packets lib (setting base) rs)
        × (s.tc.errcode ≡ minus 32600)
        × (s.tc.errmsg ≡ some batch_too_large)
        × (s.tc.batch_size ≡ 16385)
        × (run lib realloc
              (start_array ∷ requests_events rs (request_events (m ∷ ms) es))
              (idle base tp 0 a)
            ≡ cancel s)
  run-batch_too_large rs m ms es tp a al full t h =
      let on = record base { batch_mode_on = true } in
      let walked =
        run-requests_events lib realloc gives on rs (request_events (m ∷ ms) es) tp 0 a al
          (omega (arith, full)) t h in
      let b = walked.0 in
      let tp' = walked.1 in
      let n = 0 + length rs in
      let s = say_error (opened on tp' n (alloc_for b 0)) 32600 batch_too_large in
      (
        s,
        walked.3,
        refl,
        refl,
        omega (arith, full),
        run-continue lib realloc _ _ _ _ (open_batch lib realloc gives base tp 0 a)
            ∙ walked.4
            ∙ run-continue lib realloc _ _ _ _ (start-idle lib realloc gives on tp' n b walked.2)
            ∙ refused_member lib realloc gives on m (members_events ms (end_map ∷ es)) tp' n
                (alloc_for b 0) (omega (arith, full)),
      )
