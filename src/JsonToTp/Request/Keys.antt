-- ===== src/JsonToTp/Request/Keys.antt =====
-- The callbacks within a request: the keys of its members, and their values.
use nginx_upstream_module.Common.{
  refl, ℕ, ◌+◌, ◌-◌, ◌≤◌, ◌≡◌, arith, Bool, true, [], ◌∷◌, ◌++◌, append_assoc, Bytes, length,
  bytes_eq, codes, replicate, ◌∙◌, ap, if◌then◌else◌, not, ◌==◌, ltb, append-nil, false, ◌⊎◌, inl,
  inr, some,
}
use nginx_upstream_module.Common.Int.{ℤ, to_u32}
use nginx_upstream_module.Tp.{
  Attempt, TpLib, call_head, tp_call_wof_add_func, tp_call_wof_add_params, ok, be32, Tp,
}
use nginx_upstream_module.Tp.Frame.{
  framed, call_body, reserve_add-framed, renumbered-framed, framed_out, accepted-frame,
}
use nginx_upstream_module.JsonToTp.State.{
  wait_next, type_map, BeenStages, Ctx, continue, Stage, grow_top, grow_item, stack_pop, type_array,
  Transcode, has_data,
}
use nginx_upstream_module.JsonToTp.Callbacks.{
  yajl_integer, yajl_string, yajl_map_key, started_key, request_key,
}
use nginx_upstream_module.JsonToTp.Machine.{
  integer, string, callback, map_key, end_array, start_array,
}
use nginx_upstream_module.JsonToTp.Alloc.{new_item, IsAlloc, Reallocates, alloc_for}
use nginx_upstream_module.JsonToTp.Request.{
  Member, method, params, id, setting, Takes, function_bytes, framed_out, be32, count_bound,
  Transcode, has_data,
}
use nginx_upstream_module.JsonToTp.Value.Steps.{place, open_container-place, with_out, filled}
use nginx_upstream_module.JsonToTp.Containers.{
  bind_data, yajl_start_array, yajl_end_array, close_array,
}

abbrev pub member_been : Bool → Member → BeenStages → BeenStages
member_been read (method name) been = if read then record been { method_ = true } else been
member_been read (params xs) been = record been { params_ = true }
member_been read (id n) been = record been { id_ = true }

count_bound_lem :
    (tc : Transcode) (n : ℕ) → (if has_data tc then n + 1 else n) ≡ count_bound tc.data_ n
count_bound_lem tc n = go tc.data_
  where
    go : (d : Bytes) → (if not (length d == 0) then n + 1 else n) ≡ count_bound d n
    go [] = refl
    go (x ∷ xs) = ground arith

pub has_data-cases :
    (tc : Transcode)
    → ((has_data tc ≡ false) × (tc.data_ ≡ []))
      ⊎ ((has_data tc ≡ true) × (count_bound tc.data_ 0 ≡ 1))
has_data-cases tc = go tc.data_
  where
    go :
        (d : Bytes)
        → ((not (length d == 0) ≡ false) × (d ≡ []))
          ⊎ ((not (length d == 0) ≡ true) × (count_bound d 0 ≡ 1))
    go [] = inl (refl, refl)
    go (x ∷ xs) = inr (ground arith, refl)

pub bind_data-framed :
    (lib : TpLib) (realloc : ℕ → Bool) (s : Ctx) (pre body : Bytes) (room sync : ℕ)
    → length s.tc.data_ ≤ room
    → bind_data lib realloc (record s { tp = framed pre body room sync })
      ≡ ok (framed pre (body ++ s.tc.data_) (room - length s.tc.data_) sync)
unfolding bind_data
bind_data-framed lib realloc s pre body room sync h = go s.tc.data_ h
  where
    whole : Tp
    whole = framed pre body room sync

    go :
        (d : Bytes)
        → length d ≤ room
        → (if not (length d == 0)
            then (if ltb room (length d) then Attempt.null else lib.tp_add whole d)
            else ok whole)
          ≡ ok (framed pre (body ++ d) (room - length d) sync)
    go [] h' = let n : room - 0 ≡ room = omega arith in rw (append-nil, n)
    go (x ∷ xs) h' =
        ground
          (arith, lib.add_law whole (x ∷ xs), accepted-frame pre body (x ∷ xs) room (some sync))

module _ (lib : TpLib) (base : Ctx) (pre : Bytes) (ptr : ℕ) where
  abbrev pub sync_at : ℕ
  sync_at = length pre + 5 + length (call_head lib)

  -- Between two members: the request has the number `num`, and `post` stands behind its header.
  abbrev pub in_request : ℕ → Bytes → ℕ → BeenStages → ℕ → Ctx
  in_request num post room been a = record base {
    stack = new_item ptr type_map ∷ [];
    allocated = a;
    tp = framed pre (call_body lib num ++ post) room sync_at;
    stage = wait_next;
    been_stages = been;
  }

  -- Right behind the key of a member.
  abbrev pub behind_key : Stage → ℕ → Bytes → ℕ → BeenStages → ℕ → Ctx
  behind_key st num post room been a = record (in_request num post room been a) { stage = st }

  module _ (realloc : ℕ → Bool) where
    pub id_value :
        (n : ℤ) (num : ℕ) (post : Bytes) (room : ℕ) (been : BeenStages) (a : ℕ)
        → Takes (id n)
        → callback lib realloc (integer n) (behind_key Stage.id num post room been a)
          ≡ continue (in_request (to_u32 n) post room (record been { id_ = true }) a)
    unfolding callback yajl_integer
    id_value n num post room been a t =
        rw (t, yajl_integer)
          (rw (lib.reqid_law, renumbered-framed lib pre post room num (to_u32 n), yajl_integer))

    pub method_value :
        (name : Bytes) (num : ℕ) (post : Bytes) (room : ℕ) (been : BeenStages) (a : ℕ)
        → base.read_method ≡ true
        → length (function_bytes lib (setting base) name) ≤ room
        → callback lib realloc (string name) (behind_key Stage.method num post room been a)
          ≡ continue (
              in_request num
                (post ++ function_bytes lib (setting base) name)
                (room - length (function_bytes lib (setting base) name))
                (record been { method_ = true })
                a)
    unfolding callback yajl_string tp_call_wof_add_func
    method_value name num post room been a t h = ground (
      arith,
      t,
      reserve_add-framed lib pre (call_body lib num ++ post)
          (function_bytes lib (setting base) name) room sync_at h,
      append_assoc (call_body lib num) post (function_bytes lib (setting base) name),
    )

    pub params_key :
        (num : ℕ) (post : Bytes) (room : ℕ) (been : BeenStages) (a : ℕ)
        → length (lib.mp_uint lib.tp_tuple) ≤ room
        → callback lib realloc (map_key (codes "params")) (in_request num post room been a)
          ≡ continue (
              place
                (record base { been_stages = been })
                pre
                sync_at
                ((call_body lib num ++ post) ++ lib.mp_uint lib.tp_tuple)
                (room - length (lib.mp_uint lib.tp_tuple))
                (new_item ptr type_map ∷ [])
                a)
    unfolding callback yajl_map_key started_key request_key bytes_eq tp_call_wof_add_params
    params_key num post room been a h = rw (
      reserve_add-framed lib pre (call_body lib num ++ post) (lib.mp_uint lib.tp_tuple) room sync_at
          h,
      request_key,
    )

    pub params_open :
        (been : BeenStages) (body : Bytes) (room a : ℕ)
        → IsAlloc a 1
        → Reallocates realloc
        → 5 + length base.tc.data_ ≤ room
        → callback lib realloc start_array (
            place
              (record base { been_stages = been })
              pre
              sync_at
              body
              room
              (new_item ptr type_map ∷ [])
              a)
          ≡ continue (
              place
                (record base { been_stages = been })
                pre
                sync_at
                ((body ++ replicate 5 0) ++ base.tc.data_)
                (room - 5 - length base.tc.data_)
                (new_item (length (framed_out pre body)) type_array ∷ new_item ptr type_map ∷ [])
                (alloc_for a 1))
    unfolding callback yajl_start_array grow_top grow_item
    params_open been body room a al gives h =
        open_container-place lib (record base { been_stages = been }) pre sync_at realloc gives
          type_array body room (new_item ptr type_map ∷ []) a _ al (omega arith) (omega arith)
        ∙ rw (
            bind_data-framed lib realloc
              (place (record base { been_stages = been }) pre sync_at [] 0
                (new_item (length (framed_out pre body)) type_array ∷ new_item ptr type_map ∷ [])
                (alloc_for a 1))
              pre (body ++ replicate 5 0) (room - 5) sync_at (omega arith))

    pub params_close :
        (been : BeenStages) (body rest : Bytes) (room n a : ℕ)
        → callback lib realloc end_array (
            place
              (record base { been_stages = been })
              pre
              sync_at
              (body ++ (replicate 5 0 ++ rest))
              room
              (record { ptr = length (framed_out pre body); count = n; type = type_array }
                ∷ new_item ptr type_map
                ∷ [])
              a)
          ≡ continue (record base {
            stack = new_item ptr type_map ∷ [];
            allocated = a;
            tp =
                framed pre
                  (body ++ ((0xdd ∷ be32 (count_bound base.tc.data_ n)) ++ rest))
                  room
                  sync_at;
            stage = wait_next;
            been_stages = record been { params_ = true };
          })
    unfolding callback yajl_end_array close_array stack_pop
    params_close been body rest room n a = rw (count_bound_lem base.tc n) (
        ap
          (λ out.
            continue
              (record (with_out (record base { been_stages = record been { params_ = true } }) pre
                sync_at room (new_item ptr type_map ∷ []) a out) { stage = wait_next }))
          (filled pre body rest 0xdd (count_bound base.tc.data_ n)))

    pub id_key :
        (num : ℕ) (post : Bytes) (room : ℕ) (been : BeenStages) (a : ℕ)
        → callback lib realloc (map_key (codes "id")) (in_request num post room been a)
          ≡ continue (behind_key Stage.id num post room been a)
    unfolding callback yajl_map_key started_key request_key bytes_eq
    id_key num post room been a = refl

    pub method_key :
        (num : ℕ) (post : Bytes) (room : ℕ) (been : BeenStages) (a : ℕ)
        → base.read_method ≡ true
        → callback lib realloc (map_key (codes "method")) (in_request num post room been a)
          ≡ continue (behind_key Stage.method num post room been a)
    unfolding callback yajl_map_key started_key request_key bytes_eq
    method_key num post room been a t = ground arith

    pub method_skipped :
        (num : ℕ) (post : Bytes) (room : ℕ) (been : BeenStages) (a : ℕ)
        → base.read_method ≡ false
        → callback lib realloc (map_key (codes "method")) (in_request num post room been a)
          ≡ continue (in_request num post room been a)
    unfolding callback yajl_map_key started_key request_key bytes_eq
    method_skipped num post room been a t = ground arith

    pub string_skipped :
        (str : Bytes) (num : ℕ) (post : Bytes) (room : ℕ) (been : BeenStages) (a : ℕ)
        → callback lib realloc (string str) (in_request num post room been a)
          ≡ continue (in_request num post room been a)
    unfolding callback yajl_string
    string_skipped str num post room been a = ground arith
