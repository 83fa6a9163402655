-- ===== src/Tp.antt =====
-- struct tp, the request that is being written, and the functions of src/tp_ext.h on it.
--
-- third_party/tp.h and msgpuck are libraries that the module only calls: they are the parameter
-- `TpLib`, with the documented behaviour of each call as a law.
pub mod Frame
pub mod Sample
mod Tests
use nginx_upstream_module.Common.{
  ℕ, ◌+◌, ◌-◌, ◌/◌, ◌%◌, ◌^◌, ◌≡◌, Bool, Option, none, some, [], ◌∷◌, ◌++◌, leb, if◌then◌else◌,
  Bytes, length, take, drop, replicate,
}
use nginx_upstream_module.Common.Int.{ℤ}

-- `out` is what stands between `s` and `p`, `room` is `e - p`; `size` and `sync` are offsets from
-- `s`, and `none` is NULL. The struct has no `reserve` function: `tp_init` is given NULL for it.
pub record Tp : Type 0 where
  pub out : Bytes
  pub room : ℕ
  pub size : Option ℕ
  pub sync : Option ℕ

-- A pointer into the request, NULL, or a failed `assert`.
pub data Attempt : Type 0 where
  ok : Tp → Attempt
  null : Attempt
  assert_failed : Attempt

-- The values that the module asks the library to encode; a double is its 64 bits.
pub data Item : Type 0 where
  nil : Item
  bool : Bool → Item
  uint : ℕ → Item
  int : ℤ → Item
  double : ℕ → Item
  str : Bytes → Item
  array : ℕ → Item
  map : ℕ → Item

-- A big-endian uint32_t, and the fixed-width unsigned integer of MessagePack that is patched later.
abbrev pub be32 : ℕ → Bytes
be32 n = n / 2 ^ 24 % 256 ∷ n / 2 ^ 16 % 256 ∷ n / 2 ^ 8 % 256 ∷ n % 256 ∷ []

abbrev pub be_field : ℕ → Bytes
be_field n = 0xce ∷ be32 n

-- A write at an offset, over what stands there.
unfoldable pub poke : Bytes → ℕ → Bytes → Bytes
poke out off bs = take off out ++ (bs ++ drop (off + length bs) out)

-- `tp_add`: the bytes up to `p + n` are accepted, and the length of the request is set anew.
unfoldable pub accepted : Tp → Bytes → Attempt
accepted t bs = elim t.size [
  | none ↦ assert_failed
  | some s ↦
      let out = t.out ++ bs in
      ok (record t { out = poke out s (be_field (length out - s - 5)); room = t.room - length bs })
]

-- `tp_reqid`: the number of the current request is overwritten.
unfoldable pub renumbered : Tp → ℕ → Attempt
renumbered t id = elim t.sync [
  | none ↦ assert_failed
  | some s ↦ ok (record t { out = poke t.out s (be_field id) })
]

pub record TpLib : Type 0 where
  -- The bytes of mp_encode_uint, mp_encode_map and mp_encode_str, and of the tp_encode functions.
  pub mp_uint : ℕ → Bytes
  pub mp_map : ℕ → Bytes
  pub mp_str : Bytes → Bytes
  pub item_bytes : Item → Bytes
  pub tp_code : ℕ
  pub tp_call : ℕ
  pub tp_sync : ℕ
  pub tp_function : ℕ
  pub tp_tuple : ℕ
  pub tp_init : ℕ → Tp
  pub tp_used : Tp → ℕ
  pub tp_ensure : Tp → ℕ → Bool
  pub tp_add : Tp → Bytes → Attempt
  pub tp_encode : Item → Tp → Attempt
  pub tp_reqid : Tp → ℕ → Attempt
  -- A fresh buffer of a size, and the bytes written to it.
  pub init_law : (n : ℕ) → tp_init n ≡ record { out = []; room = n; size = none; sync = none }
  pub used_law : (t : Tp) → tp_used t ≡ length t.out
  -- With no `reserve` there is room, or there is not.
  pub ensure_law : (t : Tp) (n : ℕ) → tp_ensure t n ≡ leb n t.room
  pub add_law : (t : Tp) (bs : Bytes) → tp_add t bs ≡ accepted t bs
  pub encode_law :
      (i : Item) (t : Tp)
      → tp_encode i t
        ≡ (if leb (length (item_bytes i)) t.room then accepted t (item_bytes i) else null)
  pub reqid_law : (t : Tp) (id : ℕ) → tp_reqid t id ≡ renumbered t id

module _ (lib : TpLib) where
  open lib use {mp_uint, mp_map, mp_str, tp_ensure, tp_add, tp_encode}

  -- `if (tp_ensure(p, sz) == -1) return NULL;`, the bytes, `return tp_add(p, sz);`
  unfoldable pub reserve_add : Tp → Bytes → Attempt
  reserve_add t bs = if tp_ensure t (length bs) then tp_add t bs else null

  -- Up to the number of the request; the five bytes of the length are filled by tp_add.
  abbrev pub call_head : Bytes
  call_head = mp_map 2 ++ (mp_uint lib.tp_code ++ (mp_uint lib.tp_call ++ mp_uint lib.tp_sync))

  abbrev pub call_rest : Bytes
  call_rest = call_head ++ (be_field 0 ++ mp_map 2)

  abbrev pub call_bytes : Bytes
  call_bytes = replicate 5 0 ++ call_rest

  unfoldable pub tp_call_wof : Tp → Attempt
  tp_call_wof t =
      if tp_ensure t (length call_bytes)
      then tp_add
          (record t {
            size = some (length t.out);
            sync = some (length t.out + 5 + length call_head);
          })
          call_bytes
      else null

  -- The `int` for the length of the name does not wrap around for names of less than 2^31 bytes.
  unfoldable pub tp_call_wof_add_func : Tp → Bytes → Attempt
  tp_call_wof_add_func t function = reserve_add t (mp_uint lib.tp_function ++ mp_str function)

  unfoldable pub tp_call_wof_add_params : Tp → Attempt
  tp_call_wof_add_params t = reserve_add t (mp_uint lib.tp_tuple)

  unfoldable pub tp_encode_str_map_item : Tp → Bytes → Bytes → Attempt
  tp_encode_str_map_item t key value = elim (tp_encode (str key) t) [
    | null ↦ null
    | assert_failed ↦ assert_failed
    | ok t' ↦ tp_encode (str value) t'
  ]
