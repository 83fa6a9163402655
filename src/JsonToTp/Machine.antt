-- ===== src/JsonToTp/Machine.antt =====
-- The events of the JSON parser, and the callbacks run over a sequence of them.
pub mod Keeps
pub mod Entered
pub mod Pieces
use nginx_upstream_module.Common.{refl, ℕ, Bool, List, [], ◌∷◌, ◌≡◌, Bytes}
use nginx_upstream_module.Common.Int.{ℤ}
use nginx_upstream_module.Tp.{TpLib}
use nginx_upstream_module.JsonToTp.State.{Ctx, Outcome, continue, cancel, fault}
use nginx_upstream_module.JsonToTp.Callbacks.{
  yajl_null, yajl_boolean, yajl_integer, yajl_double, yajl_string, yajl_map_key,
}
use nginx_upstream_module.JsonToTp.Containers.{
  yajl_start_map, yajl_end_map, yajl_start_array, yajl_end_array,
}

-- The calls that YAJL makes; a number that fits long long is an integer, any other a double.
pub data Event : Type 0 where
  null : Event
  boolean : Bool → Event
  integer : ℤ → Event
  double : ℕ → Event
  string : Bytes → Event
  map_key : Bytes → Event
  start_map end_map start_array end_array : Event

module _ (lib : TpLib) (realloc : ℕ → Bool) where
  -- The table `callbacks` of yajl_json2tp_create.
  unfoldable pub callback : Event → Ctx → Outcome
  callback null s = yajl_null lib s
  callback (boolean v) s = yajl_boolean lib s v
  callback (integer v) s = yajl_integer lib s v
  callback (double v) s = yajl_double lib s v
  callback (string str) s = yajl_string lib s str
  callback (map_key key) s = yajl_map_key lib s key
  callback start_map s = yajl_start_map lib realloc s
  callback end_map s = yajl_end_map lib realloc s
  callback start_array s = yajl_start_array lib realloc s
  callback end_array s = yajl_end_array s

  -- The parser stops at the first callback that returns 0.
  unfoldable pub run : List Event → Ctx → Outcome
  run [] s = continue s
  run (e ∷ es) s = elim (callback e s) [
    | continue s' ↦ run es s'
    | cancel s' ↦ cancel s'
    | fault ↦ fault
  ]

  -- One step of a run.
  pub run-continue :
      (e : Event) (es : List Event) (s s' : Ctx)
      → callback e s ≡ continue s'
      → run (e ∷ es) s ≡ run es s'
  unfolding run
  run-continue e es s s' h = rw (h, run)

  pub run-cancel :
      (e : Event) (es : List Event) (s s' : Ctx)
      → callback e s ≡ cancel s'
      → run (e ∷ es) s ≡ cancel s'
  unfolding run
  run-cancel e es s s' h = rw (h, run)

  pub run-fault :
      (e : Event) (es : List Event) (s : Ctx) → callback e s ≡ fault → run (e ∷ es) s ≡ fault
  unfolding run
  run-fault e es s h = rw (h, run)

  -- Two contexts that take the first event alike.
  pub run-alike :
      (e : Event) (es : List Event) (s s' : Ctx)
      → callback e s ≡ callback e s'
      → run (e ∷ es) s ≡ run (e ∷ es) s'
  unfolding run
  run-alike e es s s' h = rw (h, run)

  pub run-nil : (s : Ctx) → run [] s ≡ continue s
  unfolding run
  run-nil s = refl
