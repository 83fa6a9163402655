-- ===== src/Pass/Writes.antt =====
-- What the parts of ngx_http_tnt_get_request_data append to a request in a buffer that it fits.
use nginx_upstream_module.Pass.{
  Step, count, when, copy_headers, counted_items, ◌>>◌, put, put_pair, Header, done,
}
use nginx_upstream_module.Tp.{TpLib, Item, tp_encode_str_map_item, str, be32, ok}
use nginx_upstream_module.Common.{
  Bytes, [], List, ℕ, Option, ◌-◌, false, replicate, ◌∷◌, length, ◌≡◌, ◌++◌, leb, ◌+◌, ◌≤◌, arith,
  length-append, true, append-nil, ◌∙◌, le→leb, append_assoc, suc, refl,
}
use nginx_upstream_module.Tp.Frame.{
  frame, tp_encode-frame, framed_out, length-framed_out, accepted-frame, poke-framed,
}

-- A part that appends some bytes and counts some items.
abbrev pub Writes : Step → Bytes → ℕ → Type 0
Writes s bs k =
    (pre body : Bytes) (room : ℕ) (sync : Option ℕ) (n : ℕ)
    → length bs ≤ room
    → s (frame pre body room sync) n ≡ done (frame pre (body ++ bs) (room - length bs) sync) (n + k)

pub count-Writes : Writes count [] 1
count-Writes pre body room sync n h =
    let z : room - 0 ≡ room = omega arith in rw (append-nil, z) refl

pub Writes-seq :
    (s next : Step) (bs cs : Bytes) (j k : ℕ)
    → Writes s bs j
    → Writes next cs k
    → Writes (s >> next) (bs ++ cs) (j + k)
Writes-seq s next bs cs j k first second pre body room sync n h =
    let size = length-append bs cs in
    let left : room - length bs - length cs ≡ room - length (bs ++ cs) = omega (arith, size) in
    let items : n + j + k ≡ n + (j + k) = omega arith in
    rw (first pre body room sync n (omega (arith, size))) (
      second pre (body ++ bs) (room - length bs) sync (n + j) (omega (arith, size))
      ∙ rw (append_assoc body bs cs, left, items) refl)

-- A part that is left out appends nothing.
pub Writes-none : (s : Step) → Writes (when false s) [] 0
Writes-none s pre body room sync n h =
    let z : room - 0 ≡ room = omega arith in
    let w : n + 0 ≡ n = omega arith in rw (append-nil, z, w) refl

module _ (lib : TpLib) where
  pub put-Writes : (i : Item) → Writes (put lib i) (lib.item_bytes i) 0
  put-Writes i pre body room sync n h =
      let w : n + 0 ≡ n = omega arith in rw (tp_encode-frame lib i pre body room sync h, w) refl

  abbrev pub pair_items : Bytes → Bytes → Bytes
  pair_items key value = lib.item_bytes (str key) ++ lib.item_bytes (str value)

  pub tp_encode_str_map_item-frame :
      (key value pre body : Bytes) (room : ℕ) (sync : Option ℕ)
      → length (pair_items key value) ≤ room
      → tp_encode_str_map_item lib (frame pre body room sync) key value
        ≡ ok (frame pre (body ++ pair_items key value) (room - length (pair_items key value)) sync)
  unfolding tp_encode_str_map_item
  tp_encode_str_map_item-frame key value pre body room sync h =
      let k = lib.item_bytes (str key) in
      let v = lib.item_bytes (str value) in
      let size = length-append k v in
      let left : room - length k - length v ≡ room - length (k ++ v) = omega (arith, size) in
      rw
        (
          tp_encode_str_map_item,
          tp_encode-frame lib (str key) pre body room sync (omega (arith, size)),
          tp_encode-frame lib (str value) pre (body ++ k) (room - length k) sync
              (omega (arith, size)),
          append_assoc body k v,
          left,
        )
        refl

  pub put_pair-Writes :
      (key value : Bytes) → Writes (put_pair lib key value) (pair_items key value) 0
  put_pair-Writes key value pre body room sync n h =
      let w : n + 0 ≡ n = omega arith in
      rw (tp_encode_str_map_item-frame key value pre body room sync h, w) refl

  -- The bytes of headers, one behind the other.
  abbrev pub header_bytes : List Header → Bytes
  header_bytes [] = []
  header_bytes (h ∷ hs) = pair_items h.key h.value ++ header_bytes hs

  pub copy_headers-Writes :
      (hs : List Header) → Writes (copy_headers lib hs) (header_bytes hs) (length hs)
  unfolding copy_headers
  copy_headers-Writes [] pre body room sync n h =
      let z : room - 0 ≡ room = omega arith in
      let w : n + 0 ≡ n = omega arith in rw (append-nil, z, w) refl
  copy_headers-Writes (x ∷ hs) pre body room sync n h =
      let one = pair_items x.key x.value in
      let size = length-append one (header_bytes hs) in
      let left : room - length one - length (header_bytes hs)
          ≡ room - length (one ++ header_bytes hs) =
        omega (arith, size) in
      let items : n + 1 + length hs ≡ n + suc (length hs) = omega arith in
      rw (tp_encode_str_map_item-frame x.key x.value pre body room sync (omega (arith, size))) (
        copy_headers-Writes hs pre (body ++ one) (room - length one) sync (n + 1)
          (omega (arith, size))
        ∙ rw (append_assoc body one (header_bytes hs), left, items) refl)

  -- The header of a map or an array with the number of items behind it, and the items.
  abbrev pub counted_bytes : ℕ → ℕ → Bytes → Bytes
  counted_bytes tag n bs = (tag ∷ be32 n) ++ bs

  pub counted_items-Writes :
      (tag : ℕ) (inside : Step) (bs : Bytes) (k : ℕ)
      → Writes inside bs k
      → Writes (counted_items lib tag inside) (counted_bytes tag k bs) 0
  unfolding counted_items
  counted_items-Writes tag inside bs k law pre body room sync n h =
      let stale : Bytes = replicate 5 0 in
      let from_zero : 0 + k ≡ k = omega arith in
      let fits : leb 5 room ≡ true = le→leb 5 room (omega arith) in
      let place : length (framed_out pre body) ≡ length pre + 5 + length body =
        length-framed_out pre body in
      let left : room - 5 - length bs ≡ room - length (counted_bytes tag k bs) = omega arith in
      let w : n + 0 ≡ n = omega arith in
      rw
        (
          counted_items,
          fits,
          lib.add_law (frame pre body room sync) stale,
          accepted-frame pre body stale room sync,
          law pre (body ++ stale) (room - 5) sync 0 (omega arith),
          append_assoc body stale bs,
          place,
          from_zero,
          poke-framed pre body stale bs (tag ∷ be32 k) refl,
          left,
          w,
        )
        refl
