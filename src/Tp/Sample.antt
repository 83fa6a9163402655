-- ===== src/Tp/Sample.antt =====
-- A library that meets the laws of TpLib, for runs: the short forms of MessagePack.
use nginx_upstream_module.Common.{
  ◌+◌, ◌-◌, ◌%◌, refl, true, false, [], ◌∷◌, ◌++◌, leb, if◌then◌else◌, Bytes, length, none,
}
use nginx_upstream_module.Common.Int.{pos, negsuc}
use nginx_upstream_module.Tp.{
  Item, nil, bool, uint, int, double, str, array, map, null, TpLib, accepted, renumbered, be32,
}

-- Numbers below 128, strings and arrays of up to 15 elements; anything else by its low bytes.
abbrev sample_bytes : Item → Bytes
sample_bytes nil = 0xc0 ∷ []
sample_bytes (bool true) = 0xc3 ∷ []
sample_bytes (bool false) = 0xc2 ∷ []
sample_bytes (uint n) = (n % 128) ∷ []
sample_bytes (int (pos n)) = (n % 128) ∷ []
sample_bytes (int (negsuc n)) = (255 - n % 32) ∷ []
sample_bytes (double d) = 0xcb ∷ (be32 d ++ be32 d)
sample_bytes (str s) = (0xa0 + length s % 16) ∷ s
sample_bytes (array n) = (0x90 + n % 16) ∷ []
sample_bytes (map n) = (0x80 + n % 16) ∷ []

abbrev pub sample_lib : TpLib
sample_lib = record {
  mp_uint = λ n. (n % 128) ∷ [];
  mp_map = λ n. (0x80 + n % 16) ∷ [];
  mp_str = λ s. (0xa0 + length s % 16) ∷ s;
  item_bytes = sample_bytes;
  tp_code = 0;
  tp_call = 10;
  tp_sync = 1;
  tp_function = 0x22;
  tp_tuple = 0x21;
  tp_init = λ n. record { out = []; room = n; size = none; sync = none };
  tp_used = λ t. length t.out;
  tp_ensure = λ t n. leb n t.room;
  tp_add = accepted;
  tp_encode =
      λ i t. if leb (length (sample_bytes i)) t.room then accepted t (sample_bytes i) else null;
  tp_reqid = renumbered;
  init_law = λ n. refl;
  used_law = λ t. refl;
  ensure_law = λ t n. refl;
  add_law = λ t bs. refl;
  encode_law = λ i t. refl;
  reqid_law = λ t id. refl;
}
