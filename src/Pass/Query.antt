-- ===== src/Pass/Query.antt =====
-- The request of a GET, PUT, PATCH or DELETE: ngx_http_tnt_query_handler, and tp_call_nargs of
-- src/tp_ext.h.
--
-- tp_call of third_party/tp.h is the parameter `TpCalls`.
use nginx_upstream_module.Tp.{Tp, TpLib, Attempt, accepted, null, ok, array, assert_failed}
use nginx_upstream_module.Common.{
  Bytes, ℕ, ◌≡◌, Bool, if◌then◌else◌, leb, length, replicate, ◌++◌, some, ◌+◌,
}
use nginx_upstream_module.Pass.{
  PassConf, Memory, HttpRequest, Passing, and_then, attempted, get_request_data, ngx_error,
}

-- What tp_call writes: the length field, a header with a number, and the name of the function up to
-- where its arguments start.
pub record TpCalls : Type 0 where
  pub tp_call : Tp → Bytes → Attempt
  pub packet : Bytes → Bytes
  pub sync_at : ℕ
  pub call_law :
      (t : Tp) (function : Bytes)
      → tp_call t function ≡ (
          if leb (length (replicate 5 0 ++ packet function)) t.room
          then accepted
              (record t { size = some (length t.out); sync = some (length t.out + 5 + sync_at) })
              (replicate 5 0 ++ packet function)
          else null)

module _ (lib : TpLib) (calls : TpCalls) where
  unfoldable pub tp_call_nargs : Tp → Bytes → ℕ → Attempt
  tp_call_nargs tp method nargs = elim (calls.tp_call tp method) [
    | null ↦ null
    | assert_failed ↦ assert_failed
    | ok t ↦ lib.tp_encode (array nargs) t
  ]

  -- `link_memory` and `buf_memory` are the two allocations, `size` is that of the buffer. The call
  -- of one argument, the map of the request; both errors are NGX_ERROR.
  unfoldable pub query_handler : PassConf → Memory → HttpRequest → Bool → Bool → ℕ → Bytes → Passing
  query_handler c memory r link_memory buf_memory size preset_method =
      if link_memory
      then (if buf_memory
          then and_then (attempted (tp_call_nargs (lib.tp_init size) preset_method 1) 0)
              (λ tp n. get_request_data lib c memory r tp)
          else ngx_error)
      else ngx_error
