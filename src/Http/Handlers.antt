-- ===== src/Http/Handlers.antt =====
-- The handler that is chosen, and the method that goes with it.
use nginx_upstream_module.Common.{
  none, some, Bool, Bytes, Option, if◌then◌else◌, length, ltb, ◌≡◌, true, ◌≤◌, false, ◌&&◌, not,
  subst, ◌||◌, refl,
}
use nginx_upstream_module.Http.{
  Chosen, Incoming, init_handlers, handled, Handler, set_method, answered, str_match, urlencoded,
  create_request_for, bad_request,
}
use nginx_upstream_module.Http.Method.{length-set_method}

-- A method that fits, of whatever is chosen.
Fits : Chosen → Type 0
Fits (handled h m) = length m ≤ 127
Fits (answered a) = Unit {0}

Fits-if : (b : Bool) (x y : Chosen) → Fits x → Fits y → Fits (if b then x else y)
Fits-if true x y p q = p
Fits-if false x y p q = q

create_request_for-Fits :
    (r : Incoming) (m : Bytes) → length m ≤ 127 → Fits (create_request_for r m)
unfolding Fits create_request_for
create_request_for-Fits r m h =
    Fits-if (ltb 0 r.req_type) _ _
      (Fits-if
        (ltb 0 (length r.content_type)
          && (not (str_match r.content_type urlencoded)
              || not (str_match r.content_type urlencoded)))
        _ _ tt h)
      (Fits-if r.pass_body _ _ h (Fits-if r.has_content _ _ h h))

init_handlers-Fits : (memory : Bool) (r : Incoming) → Fits (init_handlers memory r)
unfolding init_handlers Fits
init_handlers-Fits false r = tt
init_handlers-Fits true r = go (set_method r.method r.rest r.uri) refl
  where
    go :
        (o : Option Bytes)
        → set_method r.method r.rest r.uri ≡ o
        → Fits (elim o [ none ↦ answered bad_request | some m ↦ create_request_for r m ])
    go none e = tt
    go (some m) e = create_request_for-Fits r m (length-set_method r.method r.uri m r.rest e)

-- Whatever handler is chosen, the preset method has at most 127 bytes, which fits its array and its
-- u_char length.
pub length-init_handlers :
    (memory : Bool) (r : Incoming) (h : Handler) (m : Bytes)
    → init_handlers memory r ≡ handled h m
    → length m ≤ 127
unfolding Fits
length-init_handlers memory r h m e = subst Fits e (init_handlers-Fits memory r)
