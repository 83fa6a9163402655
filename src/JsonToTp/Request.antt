-- ===== src/JsonToTp/Request.antt =====
-- JSON-RPC requests: their events, and the Tarantool packet that stands for each.
pub mod Keys
pub mod Members
pub mod Between
pub mod Closing
pub mod Whole
pub mod Batch
use nginx_upstream_module.Common.{
  ℕ, suc, ◌+◌, ◌%◌, ◌^◌, Bool, true, false, List, [], ◌∷◌, ◌++◌, Bytes, codes, if◌then◌else◌,
  length, ◌<◌, ◌≤◌,
}
use nginx_upstream_module.Common.Int.{ℤ, to_u32}
use nginx_upstream_module.Tp.{TpLib, array, be32, be_field, call_head}
use nginx_upstream_module.Tp.Frame.{call_body, framed_out}
use nginx_upstream_module.JsonToTp.State.{BeenStages, no_stages, Transcode, Ctx, has_data}
use nginx_upstream_module.JsonToTp.Callbacks.{over_u32}
use nginx_upstream_module.JsonToTp.Machine.{
  Event, integer, string, map_key, start_map, end_map, start_array, end_array,
}
use nginx_upstream_module.JsonToTp.Value.{
  Items, events_items, count_items, depth_items, msgpack_items,
}
use mathlib.Core.Path.{◌≡◌}

-- A member of a request, in the order in which the text has them.
pub data Member : Type 0 where
  method : Bytes → Member
  params : Items → Member
  id : ℤ → Member

abbrev pub member_events : Member → List Event → List Event
member_events (method name) es = map_key (codes "method") ∷ string name ∷ es
member_events (params xs) es =
    map_key (codes "params") ∷ start_array ∷ events_items xs (end_array ∷ es)
member_events (id n) es = map_key (codes "id") ∷ integer n ∷ es

abbrev pub members_events : List Member → List Event → List Event
members_events [] es = es
members_events (m ∷ ms) es = member_events m (members_events ms es)

abbrev pub request_events : List Member → List Event → List Event
request_events ms es = start_map ∷ members_events ms (end_map ∷ es)

abbrev pub requests_events : List (List Member) → List Event → List Event
requests_events [] es = es
requests_events (r ∷ rs) es = request_events r (requests_events rs es)

-- What the codec keeps for good: the preset method, and the data to bind.
pub record Setting : Type 0 where
  pub read_method : Bool
  pub preset : Bytes
  pub bound : Bytes

abbrev pub setting : Ctx → Setting
setting s = record { read_method = s.read_method; preset = s.tc.method; bound = s.tc.data_ }

-- The data joins the parameters as their first element.
abbrev pub count_bound : Bytes → ℕ → ℕ
count_bound [] n = n
count_bound (b ∷ bs) n = n + 1

-- The number in the header after a member, and what "params" has been seen.
abbrev pub member_id : Member → ℕ → ℕ
member_id (id n) old = to_u32 n
member_id _ old = old

abbrev pub members_id : List Member → ℕ → ℕ
members_id [] old = old
members_id (m ∷ ms) old = members_id ms (member_id m old)

abbrev pub has_params : List Member → Bool
has_params [] = false
has_params (params xs ∷ ms) = true
has_params (m ∷ ms) = has_params ms

-- Members that the codec takes: an id of 32 bits, and no deeper nesting than its stack can hold.
abbrev pub Takes : Member → Type 0
Takes (method name) = Unit {0}
Takes (params xs) = 2 + depth_items xs ≤ 240
Takes (id n) = over_u32 n ≡ false

abbrev pub TakesAll : List Member → Type 0
TakesAll [] = Unit {0}
TakesAll (m ∷ ms) = Takes m × TakesAll ms

module _ (lib : TpLib) (set : Setting) where
  abbrev pub function_bytes : Bytes → Bytes
  function_bytes name = lib.mp_uint lib.tp_function ++ lib.mp_str name

  -- The header of "params" and the data, then the elements.
  abbrev pub params_bytes : Items → Bytes
  params_bytes xs =
      (0xdd ∷ be32 (count_bound set.bound (count_items xs % 2 ^ 32)))
      ++ (set.bound ++ msgpack_items lib xs)

  abbrev pub member_bytes : Member → Bytes
  member_bytes (method name) = if set.read_method then function_bytes name else []
  member_bytes (params xs) = lib.mp_uint lib.tp_tuple ++ params_bytes xs
  member_bytes (id n) = []

  abbrev pub members_bytes : List Member → Bytes
  members_bytes [] = []
  members_bytes (m ∷ ms) = member_bytes m ++ members_bytes ms

  -- A request without "params" is given an array of what is bound.
  abbrev pub empty_params : Bytes
  empty_params =
      lib.mp_uint lib.tp_tuple ++ (lib.item_bytes (array (count_bound set.bound 0)) ++ set.bound)

  abbrev pub preset_bytes : Bytes
  preset_bytes = if set.read_method then [] else function_bytes set.preset

  abbrev pub closing_bytes : Bool → Bytes
  closing_bytes seen = if seen then [] else empty_params

  -- The body of the packet, without its length.
  abbrev pub request_body : List Member → Bytes
  request_body ms =
      call_body lib (members_id ms 0)
      ++ (preset_bytes ++ (members_bytes ms ++ closing_bytes (has_params ms)))

  abbrev pub packet : List Member → Bytes
  packet ms = be_field (length (request_body ms)) ++ request_body ms

  abbrev pub packets : List (List Member) → Bytes
  packets [] = []
  packets (r ∷ rs) = packet r ++ packets rs
