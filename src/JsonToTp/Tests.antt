-- ===== src/JsonToTp/Tests.antt =====
-- Runs of the codec on one batch of two requests.
use nginx_upstream_module.Common.{
  ℕ, ◌≡◌, Bool, true, false, List, [], ◌∷◌, Bytes, codes, bytes_eq, ltb, if◌then◌else◌, length,
  arith, refl, none, ◌⊎◌, suc, ◌≤◌, ◌++◌, ap, ◌*◌, zero, length-append, some,
}
use nginx_upstream_module.Common.Int.{pos, minus}
use nginx_upstream_module.Tp.{Tp}
use nginx_upstream_module.JsonToTp.State.{
  Ctx, batch_too_large, cancel, stack_push, fault, type_map, StackItem, pushed, type_array,
  grow_item, wild, refused,
}
use nginx_upstream_module.JsonToTp.Machine.{start_array, end_array, run}
use nginx_upstream_module.JsonToTp.Alloc.{Reallocates, IsAlloc, pushed_item, stack_push-IsAlloc}
use nginx_upstream_module.JsonToTp.Value.{events, Json, Items, item, events, msgpack}
use nginx_upstream_module.JsonToTp.Request.{
  Member, method, params, id, requests_events, request_events, packets, packet,
}
use nginx_upstream_module.JsonToTp.Request.Between.{idle}
use nginx_upstream_module.JsonToTp.Request.Batch.{TakesEach, run-batch_too_large, run-empty_object}
use nginx_upstream_module.JsonToTp.Codec.{
  Yajl, yajl_json2tp_transcode, yajl_json2tp_complete, returned, transcode_ok, finished,
}
use nginx_upstream_module.JsonToTp.Codec.Text.{Reads, start_ctx, setting_of, transcode-Reads}
use nginx_upstream_module.Tp.Sample.{sample_lib}
use nginx_upstream_module.JsonToTp.Value.Walks.{Walks}
use nginx_upstream_module.JsonToTp.Value.Walk.{run-events}

abbrev ask_text : Bytes
ask_text = codes "[{\"method\":\"f\",\"params\":[1,[\"a\"]],\"id\":7},{\"id\":8}]"

abbrev ask_params : Items
ask_params =
    item (Json.integer (pos 1))
      (item (Json.list (item (Json.string (codes "a")) Items.none)) Items.none)

abbrev ask_first : List Member
ask_first = method (codes "f") ∷ params ask_params ∷ id (pos 7) ∷ []

abbrev ask : List (List Member)
ask = ask_first ∷ (id (pos 8) ∷ []) ∷ []

-- A parser that knows this text.
abbrev ask_parser : Yajl
ask_parser = record {
  Handle = Bool;
  fresh = false;
  events = λ h input.
      if bytes_eq input ask_text then start_array ∷ requests_events ask (end_array ∷ []) else [];
  well_formed = λ h input. bytes_eq input ask_text;
  after = λ h input. true;
  last_events = λ h. [];
  complete = λ h. h;
  error_text = λ h input. codes "parse error\n";
}

abbrev some_memory : ℕ → Bool
some_memory n = ltb 0 n

some_memory-Reallocates : Reallocates some_memory
some_memory-Reallocates n h = ground arith

ask-Reads : Reads sample_lib some_memory some_memory-Reallocates ask_parser ask_text ask
unfolding bytes_eq
ask-Reads = record {
  not_empty_text = λ behind. refl;
  events_are = refl;
  accepted = refl;
  no_more = refl;
  completed = refl;
}

ask-TakesEach : TakesEach ask
ask-TakesEach = ((tt, (omega arith, (refl, tt))), ((refl, tt), tt))

abbrev ask_start : Ctx
ask_start = start_ctx sample_lib some_memory some_memory-Reallocates ask_parser [] [] 100

abbrev ask_packets : Bytes
ask_packets = packets sample_lib (setting_of [] []) ask

transcode-Reads_example :
    (s : Ctx) × (s' : Ctx) × (yajl_json2tp_transcode sample_lib some_memory ask_parser ask_start
        false ask_text
        (codes "]")
      ≡ returned transcode_ok s true)
    × (yajl_json2tp_complete sample_lib some_memory ask_parser s true
        ≡ finished (length ask_packets) s')
    × (s'.tp.out ≡ ask_packets)
    × (s'.tc.batch_size ≡ 2)
transcode-Reads_example =
    transcode-Reads sample_lib some_memory some_memory-Reallocates ask_parser ask_text (codes "]")
      [] [] 100 ask ask-Reads (omega arith) ask-TakesEach (omega arith)

abbrev empty_tp : Tp
empty_tp = record { out = []; room = 100; size = none; sync = none }

sixteen-IsAlloc : IsAlloc 16 0
sixteen-IsAlloc = record { holds = omega arith; bounded = omega arith; stepped = refl }

-- The same request over and over.
many : ℕ → List (List Member)
many zero = []
many (suc n) = (id (pos 8) ∷ []) ∷ many n

length-many : (n : ℕ) → length (many n) ≡ n
unfolding many
length-many zero = refl
length-many (suc n) = ap suc (length-many n)

many-TakesEach : (n : ℕ) → TakesEach (many n)
unfolding many
many-TakesEach zero = tt
many-TakesEach (suc n) = ((refl, tt), many-TakesEach n)

abbrev many_packets : ℕ → Bytes
many_packets n = packets sample_lib (setting_of [] []) (many n)

length-many_packets : (n : ℕ) → length (many_packets n) ≤ n * 50
unfolding many
length-many_packets zero = omega arith
length-many_packets (suc n) = omega (
  arith,
  length-append (packet sample_lib (setting_of [] []) (id (pos 8) ∷ [])) (many_packets n),
  length-many_packets n,
)

abbrev large_tp : Tp
large_tp = record { out = []; room = 1000000; size = none; sync = none }

run-batch_too_large_example :
    (s : Ctx) × (s.tp.out ≡ [] ++ many_packets 16385)
    × (s.tc.errcode ≡ minus 32600)
    × (s.tc.errmsg ≡ some batch_too_large)
    × (s.tc.batch_size ≡ 16385)
    × (run sample_lib some_memory
          (start_array ∷ requests_events (many 16385) (request_events ask_first []))
          (idle ask_start large_tp 0 16)
        ≡ cancel s)
run-batch_too_large_example =
    run-batch_too_large sample_lib some_memory some_memory-Reallocates ask_start (many 16385)
      (method (codes "f")) (params ask_params ∷ id (pos 7) ∷ []) [] large_tp 16 sixteen-IsAlloc
      (length-many 16385) (many-TakesEach 16385) (omega (arith, length-many_packets 16385))

run-empty_object_example :
    run sample_lib some_memory (request_events [] []) (idle ask_start empty_tp 0 16) ≡ fault
run-empty_object_example =
    run-empty_object sample_lib some_memory some_memory-Reallocates ask_start [] empty_tp 0 16
      sixteen-IsAlloc refl (omega arith)

stack_push-IsAlloc_example :
    ((stack_push some_memory ask_start 3 type_map
        ≡ pushed (pushed_item some_memory ask_start 3 type_map))
      × IsAlloc 16 1)
    ⊎ ((length ask_start.stack ≡ 240)
        × (stack_push some_memory ask_start 3 type_map
            ≡ (if some_memory 0 then wild else refused (record ask_start { allocated = 0 }))))
stack_push-IsAlloc_example =
    stack_push-IsAlloc some_memory ask_start 3 type_map some_memory-Reallocates sixteen-IsAlloc

abbrev array_item : StackItem
array_item = record { ptr = 0; count = 0; type = type_array }

run-events_example :
    Walks sample_lib some_memory some_memory-Reallocates ask_start [] 0
      (events (Json.list ask_params) [])
      []
      []
      (msgpack sample_lib (Json.list ask_params))
      50
      array_item
      (grow_item type_array array_item)
      array_item
      []
      16
run-events_example =
    run-events sample_lib some_memory some_memory-Reallocates ask_start [] 0 (Json.list ask_params)
      [] [] 50 array_item array_item [] 16
      (record { holds = omega arith; bounded = omega arith; stepped = refl }) (omega arith)
      (omega arith)
