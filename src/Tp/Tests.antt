-- ===== src/Tp/Tests.antt =====
-- A run of tp_call_wof behind three bytes.
use nginx_upstream_module.Common.{◌+◌, ◌-◌, ◌≡◌, length, arith, ◌∷◌, [], none}
use nginx_upstream_module.Tp.Sample.{sample_lib}
use nginx_upstream_module.Tp.{Tp, ok, tp_call_wof, call_head, call_bytes}
use nginx_upstream_module.Tp.Frame.{framed, call_body, tp_call_wof-framed}

abbrev after_three : Tp
after_three = record { out = 1 ∷ 2 ∷ 3 ∷ []; room = 20; size = none; sync = none }

tp_call_wof-framed_example :
    tp_call_wof sample_lib after_three
    ≡ ok (
        framed
          (1 ∷ 2 ∷ 3 ∷ [])
          (call_body sample_lib 0)
          (20 - length (call_bytes sample_lib))
          (8 + length (call_head sample_lib)))
tp_call_wof-framed_example = tp_call_wof-framed sample_lib after_three (omega arith)
