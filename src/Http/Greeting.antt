-- ===== src/Http/Greeting.antt =====
-- ngx_http_tnt_read_greeting and ngx_http_tnt_process_header: the 128 bytes that Tarantool sends
-- first, and what is answered by the state of the request.
use nginx_upstream_module.Common.{
  zero, suc, refl, ap, true, false, ℕ, Bool, Bytes, leb, if◌then◌else◌, length, ◌≤◌, ◌++◌, ◌<◌, ◌≡◌,
  ◌&&◌, ◌==◌, bytes_eq, take, codes, arith, le→leb, ◌∷◌, length-append, ◌∙◌, [], sym, append-nil,
}
use nginx_upstream_module.Reply.Filter.{
  CtxState, Rc, ngx_ok, ngx_error, ngx_again, is_again, input_to_large, input_json_parse_failed,
  input_empty, input_fmt_cant_read_input,
}

-- `ctx->greeting`, how far `b->pos` has moved, and the code returned.
pub record Greeted : Type 0 where
  pub greeting : Bool
  pub pos : ℕ
  pub rc : Rc

abbrev pub is_greeting : Bytes → Bool
is_greeting b = leb 9 (length b) && bytes_eq (take 9 b) (codes "Tarantool")

unfoldable pub read_greeting : Bytes → Greeted
read_greeting b =
    if is_greeting b
    then (if length b == 128
        then record { greeting = false; pos = 128; rc = ngx_again }
        else record { greeting = true; pos = 128; rc = ngx_ok })
    else record { greeting = true; pos = 0; rc = ngx_ok }

-- A code; a chunked answer with status 200; ngx_http_tnt_output_err with NGX_HTTP_BAD_REQUEST.
pub data Processed : Type 0 where
  returned : Rc → Processed
  chunked : Processed
  output_err : Processed

unfoldable pub by_state : CtxState → Processed
by_state CtxState.ok = chunked
by_state input_to_large = output_err
by_state input_json_parse_failed = output_err
by_state input_empty = output_err
by_state input_fmt_cant_read_input = output_err
by_state _ = returned ngx_error

abbrev pub is_ok : CtxState → Bool
is_ok CtxState.ok = true
is_ok _ = false

abbrev pub greet : Bool → Bytes → Greeted
greet greeting b =
    if greeting then record { greeting = true; pos = 0; rc = ngx_ok } else read_greeting b

unfoldable pub process_header : Bool → CtxState → Bytes → Greeted × Processed
process_header greeting state b =
    let g = greet greeting b in
    (g, if is_again g.rc && is_ok state then returned ngx_again else by_state state)

-- A whole greeting.
pub record IsGreeting (g : Bytes) : Type 0 where
  pub size : length g ≡ 128
  pub name : bytes_eq (take 9 g) (codes "Tarantool") ≡ true

take_front : (n : ℕ) (xs ys : Bytes) → n ≤ length xs → take n (xs ++ ys) ≡ take n xs
take_front zero xs ys h = refl
take_front (suc n) [] ys h = absurd (omega arith)
take_front (suc n) (x ∷ xs) ys h = ap (◌∷◌ x) (take_front n xs ys (omega arith))

read_greeting-append :
    (g reply : Bytes)
    → IsGreeting g
    → read_greeting (g ++ reply) ≡ (
        if length reply == 0
        then record { greeting = false; pos = 128; rc = ngx_again }
        else record { greeting = true; pos = 128; rc = ngx_ok })
unfolding read_greeting
read_greeting-append g reply i =
    let long : leb 9 (length (g ++ reply)) ≡ true =
      le→leb 9 (length (g ++ reply)) (omega (arith, length-append g reply, i.size)) in
    let name : bytes_eq (take 9 (g ++ reply)) (codes "Tarantool") ≡ true =
      ap (λ x. bytes_eq x (codes "Tarantool")) (take_front 9 g reply (omega (arith, i.size)))
      ∙ i.name in
    rw (long, name) (ground (arith, length-append g reply, i.size))

-- For a request without an error before the greeting is read: a buffer with the 128 bytes of a
-- greeting and no more is skipped and more is waited for, with the greeting not yet counted as
-- read; a greeting with a reply behind it is skipped, counted as read, with the position at the
-- first byte behind it, and a chunked answer is begun.
pub process_header-greeting :
    (g reply : Bytes)
    → IsGreeting g
    → 0 < length reply
    → (process_header false CtxState.ok g
        ≡ (record { greeting = false; pos = 128; rc = ngx_again }, returned ngx_again))
      × (process_header false CtxState.ok (g ++ reply)
          ≡ (record { greeting = true; pos = 128; rc = ngx_ok }, chunked))
unfolding process_header by_state
process_header-greeting g reply i h =
    let alone = ap read_greeting (sym (append-nil g)) ∙ read_greeting-append g [] i in
    let more : (length reply == 0) ≡ false = ground arith in
    let followed = read_greeting-append g reply i ∙ rw more refl in
    (ap answer alone, ap answer followed)
  where
    answer : Greeted → Greeted × Processed
    answer x = (x, if is_again x.rc && true then returned ngx_again else chunked)
