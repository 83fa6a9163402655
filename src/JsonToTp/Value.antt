-- ===== src/JsonToTp/Value.antt =====
-- JSON values: the events of a value, and the MessagePack that the codec is meant to write for it.
pub mod Steps
pub mod Walks
pub mod Walk
use nginx_upstream_module.Common.{ℕ, suc, ◌+◌, ◌%◌, ◌^◌, Bool, List, [], ◌∷◌, ◌++◌, Bytes}
use nginx_upstream_module.Common.Int.{ℤ}
use nginx_upstream_module.Tp.{TpLib, nil, bool, double, str, be32}
use nginx_upstream_module.JsonToTp.Callbacks.{integer_item}
use nginx_upstream_module.JsonToTp.Machine.{
  Event, map_key, start_map, end_map, start_array, end_array,
}
use Prim.Native.Nat.{max}

mutual
  pub data Json : Type 0 where
    null : Json
    boolean : Bool → Json
    integer : ℤ → Json
    number : ℕ → Json
    string : Bytes → Json
    list : Items → Json
    object : Fields → Json

  pub data Items : Type 0 where
    none : Items
    item : Json → Items → Items

  pub data Fields : Type 0 where
    end : Fields
    field : Bytes → Json → Fields → Fields

abbrev mutual
  -- The parser's events for a value, with the events that follow it.
  pub events : Json → List Event → List Event
  events null rest = Event.null ∷ rest
  events (boolean b) rest = Event.boolean b ∷ rest
  events (integer n) rest = Event.integer n ∷ rest
  events (number d) rest = Event.double d ∷ rest
  events (string s) rest = Event.string s ∷ rest
  events (list xs) rest = start_array ∷ events_items xs (end_array ∷ rest)
  events (object fs) rest = start_map ∷ events_fields fs (end_map ∷ rest)

  pub events_items : Items → List Event → List Event
  events_items none rest = rest
  events_items (item x xs) rest = events x (events_items xs rest)

  pub events_fields : Fields → List Event → List Event
  events_fields end rest = rest
  events_fields (field k v fs) rest = map_key k ∷ events v (events_fields fs rest)

abbrev pub count_items : Items → ℕ
count_items none = 0
count_items (item x xs) = suc (count_items xs)

abbrev pub count_fields : Fields → ℕ
count_fields end = 0
count_fields (field k v fs) = suc (count_fields fs)

-- How many containers stand in one another.
abbrev mutual
  pub depth : Json → ℕ
  depth null = 0
  depth (boolean b) = 0
  depth (integer n) = 0
  depth (number d) = 0
  depth (string s) = 0
  depth (list xs) = suc (depth_items xs)
  depth (object fs) = suc (depth_fields fs)

  pub depth_items : Items → ℕ
  depth_items none = 0
  depth_items (item x xs) = max (depth x) (depth_items xs)

  pub depth_fields : Fields → ℕ
  depth_fields end = 0
  depth_fields (field k v fs) = max (depth v) (depth_fields fs)

-- The header of a container, whose length is a uint32_t.
abbrev pub header : ℕ → ℕ → Bytes
header mark n = mark ∷ be32 (n % 2 ^ 32)

module _ (lib : TpLib) where
  abbrev mutual
    pub msgpack : Json → Bytes
    msgpack null = lib.item_bytes nil
    msgpack (boolean b) = lib.item_bytes (bool b)
    msgpack (integer n) = lib.item_bytes (integer_item n)
    msgpack (number d) = lib.item_bytes (double d)
    msgpack (string s) = lib.item_bytes (str s)
    msgpack (list xs) = header 0xdd (count_items xs) ++ msgpack_items xs
    msgpack (object fs) = header 0xdf (count_fields fs) ++ msgpack_fields fs

    pub msgpack_items : Items → Bytes
    msgpack_items none = []
    msgpack_items (item x xs) = msgpack x ++ msgpack_items xs

    pub msgpack_fields : Fields → Bytes
    msgpack_fields end = []
    msgpack_fields (field k v fs) = lib.item_bytes (str k) ++ (msgpack v ++ msgpack_fields fs)
