-- ===== src/JsonToTp/Request/Between.antt =====
-- The state between two requests, and a run over the members of one.
use nginx_upstream_module.Common.{
  ℕ, ◌-◌, ◌≤◌, ◌≡◌, ◌∙◌, arith, Bool, List, [], ◌∷◌, ◌++◌, append_assoc, append-nil, Bytes, length,
  length-append, ◌||◌,
}
use nginx_upstream_module.Tp.{Tp, TpLib}
use nginx_upstream_module.JsonToTp.State.{Ctx, Stage, BeenStages, type_map, no_stages}
use nginx_upstream_module.JsonToTp.Request.{
  Member, BeenStages, Event, no_stages, has_params, TakesAll, method, members_bytes, params,
  setting, id, members_events, members_id, member_bytes, member_id,
}
use nginx_upstream_module.JsonToTp.Alloc.{Reallocates, new_item, IsAlloc}
use nginx_upstream_module.JsonToTp.Machine.{Event, run}
use nginx_upstream_module.JsonToTp.Request.Members.{serve_member}
use nginx_upstream_module.JsonToTp.Request.Keys.{member_been, in_request}

module _ (base : Ctx) where
  -- Between two requests, with `n` of them written.
  abbrev pub idle : Tp → ℕ → ℕ → Ctx
  idle tp n a = record base {
    stack = [];
    allocated = a;
    tp = tp;
    stage = Stage.init;
    been_stages = no_stages;
    tc = record (base.tc) { batch_size = n };
  }

  abbrev pub opened : Tp → ℕ → ℕ → Ctx
  opened tp n a = record (idle tp n a) { stack = new_item (length tp.out) type_map ∷ [] }

  abbrev pub serving : ℕ → Ctx
  serving n = record base { tc = record (base.tc) { batch_size = n } }

abbrev pub members_been : Bool → List Member → BeenStages → BeenStages
members_been read [] been = been
members_been read (m ∷ ms) been = members_been read ms (member_been read m been)

pub members_been-params :
    (read : Bool) (ms : List Member) (been : BeenStages)
    → (members_been read ms been).params_ ≡ (been.params_ || has_params ms)
members_been-params read [] been = ground arith
members_been-params read (method name ∷ ms) been =
    members_been-params read ms (member_been read (method name) been) ∙ ground arith
members_been-params read (params xs ∷ ms) been =
    members_been-params read ms (member_been read (params xs) been) ∙ ground arith
members_been-params read (id n ∷ ms) been =
    members_been-params read ms (member_been read (id n) been) ∙ ground arith

module _ (lib : TpLib) (realloc : ℕ → Bool) (gives : Reallocates realloc) where
  pub run-members :
      (ms : List Member) (es : List Event) (base : Ctx) (pre : Bytes) (ptr num : ℕ) (post : Bytes)
      (room : ℕ) (been : BeenStages) (a : ℕ)
      → IsAlloc a 1
      → TakesAll ms
      → length (members_bytes lib (setting base) ms) ≤ room
      → (b : ℕ) × IsAlloc b 1
        × (run lib realloc (members_events ms es) (in_request lib base pre ptr num post room been a)
            ≡ run lib realloc es (
                in_request lib base pre ptr
                  (members_id ms num)
                  (post ++ members_bytes lib (setting base) ms)
                  (room - length (members_bytes lib (setting base) ms))
                  (members_been base.read_method ms been)
                  b))
  run-members [] es base pre ptr num post room been a al t h =
      let r : room - 0 ≡ room = omega arith in (a, al, rw (append-nil, r))
  run-members (m ∷ ms) es base pre ptr num post room been a al t h =
      let bs = member_bytes lib (setting base) m in
      let cs = members_bytes lib (setting base) ms in
      let n = length-append bs cs in
      let first =
        serve_member lib base pre ptr realloc m (members_events ms es) num post room been a gives al
          t.0 (omega (arith, n)) in
      let rest =
        run-members ms es base pre ptr (member_id m num) (post ++ bs) (room - length bs)
          (member_been base.read_method m been) first.0 first.1 t.1 (omega (arith, n)) in
      let r : room - length bs - length cs ≡ room - length (bs ++ cs) = omega (arith, n) in
      (rest.0, rest.1, first.2 ∙ rw (← append_assoc post bs cs, ← r) rest.2)
