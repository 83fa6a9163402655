-- ===== src/Tp/Frame.antt =====
-- Lemmas on the request under construction: what precedes it, its length field, and its body.
use nginx_upstream_module.Common.{
  ℕ, ◌+◌, ◌-◌, ◌≤◌, ◌≡◌, refl, ap, sym, ◌∙◌, arith, some, ◌++◌, append_assoc, Bytes, length,
  length-append, drop, replicate, le→leb, drop-append_length, take-append, Option,
}
use nginx_upstream_module.Tp.{
  Tp, ok, TpLib, be_field, poke, accepted, renumbered, call_head, call_rest, tp_call_wof,
  reserve_add, Item, call_bytes,
}

-- A write over a part of the same length replaces that part.
pub poke-append :
    (a old c new : Bytes)
    → length old ≡ length new
    → poke (a ++ (old ++ c)) (length a) new ≡ a ++ (new ++ c)
unfolding poke
poke-append a old c new e = rw (take-append a (old ++ c)) (
    ap (λ (t : Bytes). a ++ (new ++ t))
      (ap (drop (length a + length new)) (sym (append_assoc a old c))
        ∙ drop-append_length (a ++ old) c (length a + length new)
            (omega (arith, length-append a old, e))))

-- The bytes up to the request, its length field, and the rest of the request.
abbrev pub framed_out : Bytes → Bytes → Bytes
framed_out pre body = pre ++ (be_field (length body) ++ body)

-- With the place of its number, or none where it has no number.
abbrev pub frame : Bytes → Bytes → ℕ → Option ℕ → Tp
frame pre body room sync = record {
  out = framed_out pre body;
  room = room;
  size = some (length pre);
  sync = sync;
}

abbrev pub framed : Bytes → Bytes → ℕ → ℕ → Tp
framed pre body room sync = frame pre body room (some sync)

pub length-framed_out :
    (pre body : Bytes) → length (framed_out pre body) ≡ length pre + 5 + length body
length-framed_out pre body = omega (arith, length-append pre (be_field (length body) ++ body))

restamp :
    (pre body bs : Bytes)
    → poke
        (framed_out pre body ++ bs)
        (length pre)
        (be_field (length (framed_out pre body ++ bs) - length pre - 5))
      ≡ framed_out pre (body ++ bs)
restamp pre body bs =
    let n : length (framed_out pre body ++ bs) - length pre - 5 ≡ length (body ++ bs) = omega (
      arith,
      length-append (framed_out pre body) bs,
      length-framed_out pre body,
      length-append body bs,
    ) in
    rw (n, append_assoc pre (be_field (length body) ++ body) bs)
      (poke-append pre (be_field (length body)) (body ++ bs) (be_field (length (body ++ bs))) refl)

-- `tp_add` within a request lengthens its body.
pub accepted-frame :
    (pre body bs : Bytes) (room : ℕ) (sync : Option ℕ)
    → accepted (frame pre body room sync) bs ≡ ok (frame pre (body ++ bs) (room - length bs) sync)
unfolding accepted
accepted-frame pre body bs room sync = rw (restamp pre body bs)

regroup : (pre f a x : Bytes) → pre ++ (f ++ (a ++ x)) ≡ (pre ++ (f ++ a)) ++ x
regroup pre f a x = simp append_assoc

-- A write into the body leaves the length field as it is.
pub poke-framed :
    (pre a old c new : Bytes)
    → length old ≡ length new
    → poke (framed_out pre (a ++ (old ++ c))) (length pre + 5 + length a) new
      ≡ framed_out pre (a ++ (new ++ c))
poke-framed pre a old c new e =
    let f = be_field (length (a ++ (new ++ c))) in
    let n : length (a ++ (old ++ c)) ≡ length (a ++ (new ++ c)) = omega (
      arith,
      length-append a (old ++ c),
      length-append a (new ++ c),
      length-append old c,
      length-append new c,
      e,
    ) in
    let at : length pre + 5 + length a ≡ length (pre ++ (f ++ a)) =
      omega (arith, length-append pre (f ++ a), length-append f a) in
    rw (n, at, regroup pre f a (old ++ c))
      (poke-append (pre ++ (f ++ a)) old c new e ∙ sym (regroup pre f a (new ++ c)))

-- `tp_add` over a length field that is not set yet begins a request.
pub accepted_first :
    (out rest : Bytes) (room : ℕ) (sync : Option ℕ)
    → accepted
        (record { out = out; room = room; size = some (length out); sync = sync })
        (replicate 5 0 ++ rest)
      ≡ ok (frame out rest (room - length (replicate 5 0 ++ rest)) sync)
unfolding accepted
accepted_first out rest room sync =
    let n : length (out ++ (replicate 5 0 ++ rest)) - length out - 5 ≡ length rest =
      omega (arith, length-append out (replicate 5 0 ++ rest)) in
    rw (n, poke-append out (replicate 5 0) rest (be_field (length rest)) refl)

-- The packet that `tp_call_wof` starts, with the number `id` in its header.
module _ (lib : TpLib) where
  abbrev pub call_body : ℕ → Bytes
  call_body id = call_head lib ++ (be_field id ++ lib.mp_map 2)

  -- A request that is begun where its header fits the buffer starts behind all that was written,
  -- whatever request was current before, with the number 0 and a length field that counts the bytes
  -- behind it.
  pub tp_call_wof-framed :
      (t : Tp)
      → length (call_bytes lib) ≤ t.room
      → tp_call_wof lib t
        ≡ ok (
            framed t.out
              (call_body 0)
              (t.room - length (call_bytes lib))
              (length t.out + 5 + length (call_head lib)))
  unfolding tp_call_wof accepted
  tp_call_wof-framed t h =
      rw (lib.ensure_law, le→leb (length (call_bytes lib)) t.room h, lib.add_law)
        (accepted_first t.out (call_rest lib) t.room
          (some (length t.out + 5 + length (call_head lib))))

  -- Setting the number of the request changes its header only.
  pub renumbered-framed :
      (pre more : Bytes) (room old id : ℕ)
      → renumbered
          (framed pre (call_body old ++ more) room (length pre + 5 + length (call_head lib)))
          id
        ≡ ok (framed pre (call_body id ++ more) room (length pre + 5 + length (call_head lib)))
  unfolding renumbered
  renumbered-framed pre more room old id = rw (
    append_assoc (call_head lib) (be_field old ++ lib.mp_map 2) more,
    append_assoc (call_head lib) (be_field id ++ lib.mp_map 2) more,
    poke-framed pre (call_head lib) (be_field old) (lib.mp_map 2 ++ more) (be_field id) refl,
  )

  pub reserve_add-framed :
      (pre body bs : Bytes) (room sync : ℕ)
      → length bs ≤ room
      → reserve_add lib (framed pre body room sync) bs
        ≡ ok (framed pre (body ++ bs) (room - length bs) sync)
  unfolding reserve_add
  reserve_add-framed pre body bs room sync h =
      rw (lib.ensure_law, le→leb (length bs) room h, lib.add_law)
        (accepted-frame pre body bs room (some sync))

  pub tp_encode-frame :
      (i : Item) (pre body : Bytes) (room : ℕ) (sync : Option ℕ)
      → length (lib.item_bytes i) ≤ room
      → lib.tp_encode i (frame pre body room sync)
        ≡ ok (frame pre (body ++ lib.item_bytes i) (room - length (lib.item_bytes i)) sync)
  tp_encode-frame i pre body room sync h =
      rw (lib.encode_law, le→leb (length (lib.item_bytes i)) room h)
        (accepted-frame pre body (lib.item_bytes i) room sync)

  pub tp_encode-framed :
      (i : Item) (pre body : Bytes) (room sync : ℕ)
      → length (lib.item_bytes i) ≤ room
      → lib.tp_encode i (framed pre body room sync)
        ≡ ok (framed pre (body ++ lib.item_bytes i) (room - length (lib.item_bytes i)) sync)
  tp_encode-framed i pre body room sync h = tp_encode-frame i pre body room (some sync) h
