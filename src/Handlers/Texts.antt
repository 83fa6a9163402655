-- ===== src/Handlers/Texts.antt =====
-- The texts of the codec's errors, as they are reported.
use nginx_upstream_module.Common.{Bytes, ◌≤◌, length, true, ◌++◌, ◌≡◌, arith, some, refl, codes}
use nginx_upstream_module.Common.Int.{ℤ}
use nginx_upstream_module.JsonToTp.State.{
  Message, parser_error, output_overflow, stack_overflow, wrong_params, invalid_json, id_too_large,
  batch_too_large,
}
use nginx_upstream_module.Handlers.{Printf, error_head, set_err, SetErr}
use nginx_upstream_module.Handlers.Body.{message_text}
use nginx_upstream_module.Handlers.Errors.{test_plain, test_plain-IsPlain, set_err-read_json_string}
use nginx_upstream_module.JsonString.{escaped}
use nginx_upstream_module.JsonString.RoundTrip.{read_json_string}

-- A text of the codec's own.
abbrev pub IsFixed : Message → Type 0
IsFixed (parser_error text) = ⊥
IsFixed _ = Unit {0}

-- The texts of the codec that are written as they stand.
message_text_plain : (m : Message) → IsFixed m → test_plain (message_text m) ≡ true
unfolding test_plain escaped
message_text_plain output_overflow i = refl
message_text_plain stack_overflow i = refl
message_text_plain wrong_params i = refl
message_text_plain invalid_json i = refl
message_text_plain id_too_large i = refl
message_text_plain batch_too_large i = refl
message_text_plain (parser_error text) i = absurd i

message_text_long : (m : Message) → IsFixed m → 3 ≤ length (message_text m)
message_text_long output_overflow i = omega arith
message_text_long stack_overflow i = omega arith
message_text_long wrong_params i = omega arith
message_text_long invalid_json i = omega arith
message_text_long id_too_large i = omega arith
message_text_long batch_too_large i = omega arith
message_text_long (parser_error text) i = absurd i

pub message_text-set_err :
    (printf : Printf) (code : ℤ) (m : Message)
    → IsFixed m
    → length (printf.decimal code) ≤ 7
    → (rest : Bytes) × (set_err printf true code (message_text m)
        ≡ SetErr.ngx_ok (error_head (printf.decimal code) ++ rest))
      × (read_json_string rest ≡ some (message_text m, codes "}}"))
message_text-set_err printf code m i few =
    let plain = test_plain-IsPlain (message_text m) (message_text_plain m i) in
    set_err-read_json_string printf code (message_text m) plain.0 plain.1 (message_text_long m i)
      few
