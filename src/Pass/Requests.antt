-- ===== src/Pass/Requests.antt =====
-- Whole requests that are passed on.
use nginx_upstream_module.Tp.{TpLib, Tp, array, be_field, be32}
use nginx_upstream_module.Pass.{
  PassConf, HttpRequest, get_request_data, get_request_data_map, counted_items, done, root_items,
}
use nginx_upstream_module.Common.{
  List, Bytes, ℕ, length, Option, ◌++◌, ◌-◌, ◌≤◌, some, ◌+◌, none, true, ◌≡◌, replicate, [], leb,
  length-append, le→leb, arith, append_assoc, ◌∷◌, refl,
}
use nginx_upstream_module.Url.Form.{Pair}
use nginx_upstream_module.Pass.Entries.{entries_bytes}
use nginx_upstream_module.Pass.Writes.{counted_bytes, counted_items-Writes}
use nginx_upstream_module.Pass.Query.{TpCalls, query_handler, tp_call_nargs}
use nginx_upstream_module.Pass.Text.{request_entries, IsPassed, enough}
use nginx_upstream_module.Tp.Frame.{frame, accepted_first, poke-append, tp_encode-frame}
use nginx_upstream_module.Pass.Parts.{root_items-WritesEntries}

module _ (lib : TpLib) (c : PassConf) (r : HttpRequest) (args form : List Pair) (text : Bytes) where
  abbrev pub written_entries : Bytes
  written_entries = entries_bytes lib (request_entries lib c r args form text)

  -- The map of all entries.
  abbrev pub request_map : Bytes
  request_map =
      counted_bytes lib 0xdf (length (request_entries lib c r args form text)) written_entries

  get_request_data-frame :
      (pre body : Bytes) (room : ℕ) (sync : Option ℕ)
      → IsPassed c r args form text
      → length request_map ≤ room
      → get_request_data lib c enough r (frame pre body room sync)
        ≡ done (frame pre (body ++ request_map) (room - length request_map) sync) 0
  unfolding get_request_data
  get_request_data-frame pre body room sync i h =
      counted_items-Writes lib 0xdf (root_items lib c enough r) written_entries
        (length (request_entries lib c r args form text))
        (root_items-WritesEntries lib c r args form text i).writes pre body room sync 0 h

  -- The buffer of a request that is passed on with a body.
  abbrev pub map_buffer : ℕ → Tp
  map_buffer size = record {
    out = request_map;
    room = size - length request_map;
    size = some 0;
    sync = none;
  }

  -- With the memory it asks for, and a buffer that the map fits, on a request whose arguments are
  -- `k=v&k=v`, with keys that have neither `=` nor `&` and values that are not empty and have no
  -- `&`, and whose body is in memory, of the announced length, and of the same form where it is to
  -- be parsed: the buffer holds one map, of as many entries as its header says: the protocol, the
  -- method, the URI, decoded if it is to be, the arguments, the headers, the parsed body and the
  -- body, in this order and as far as the configuration asks for them, each of them with its own
  -- count.
  pub get_request_data_map-request :
      (size : ℕ)
      → IsPassed c r args form text
      → length request_map ≤ size
      → get_request_data_map lib c enough r true size ≡ done (map_buffer size) 0
  unfolding get_request_data_map get_request_data counted_items
  get_request_data_map-request size i h =
      let stale : Bytes = replicate 5 0 in
      let k = length (request_entries lib c r args form text) in
      let fits : leb 5 size ≡ true = le→leb 5 size (omega arith) in
      let from_zero : 0 + k ≡ k = omega arith in
      let left : size - 5 - length written_entries ≡ size - length request_map = omega arith in
      rw
        (
          get_request_data_map,
          lib.init_law size,
          get_request_data,
          counted_items,
          fits,
          lib.add_law (record { out = []; room = size; size = some 0; sync = none }) stale,
          accepted_first [] [] size none,
          (root_items-WritesEntries lib c r args form text i).writes [] [] (size - 5) none 0
              (omega arith),
          from_zero,
          poke-append [] (be_field (length written_entries)) written_entries (0xdf ∷ be32 k) refl,
          left,
        )
        refl

  module _ (calls : TpCalls) (preset_method : Bytes) where
    -- The call with one argument, and the argument.
    abbrev pub query_body : Bytes
    query_body = calls.packet preset_method ++ (lib.item_bytes (array 1) ++ request_map)

    -- With the memory it asks for, and a buffer that the request fits, on a request whose arguments
    -- are `k=v&k=v`, with keys that have neither `=` nor `&` and values that are not empty and have
    -- no `&`, and whose body is in memory, of the announced length, and of the same form where it
    -- is to be parsed: the handler writes one request, the call of the preset method with one
    -- argument, the map of what is passed on, and the length field of it counts the bytes behind
    -- it.
    pub query_handler-request :
        (size : ℕ)
        → IsPassed c r args form text
        → 5 + length query_body ≤ size
        → query_handler lib calls c enough r true true size preset_method
          ≡ done (frame [] query_body (size - (5 + length query_body)) (some (5 + calls.sync_at))) 0
    unfolding query_handler tp_call_nargs
    query_handler-request size i h =
        let head = calls.packet preset_method in
        let one = lib.item_bytes (array 1) in
        let total = length-append head (one ++ request_map) in
        let behind = length-append one request_map in
        let fits : leb (length (replicate 5 0 ++ head)) size ≡ true =
          le→leb (length (replicate 5 0 ++ head)) size (omega (arith, total)) in
        let left : size - length (replicate 5 0 ++ head) - length one - length request_map
            ≡ size - (5 + length query_body) =
          omega (arith, total, behind) in
        rw
          (
            query_handler,
            lib.init_law size,
            tp_call_nargs,
            calls.call_law (record { out = []; room = size; size = none; sync = none })
                preset_method,
            fits,
            accepted_first [] head size (some (5 + calls.sync_at)),
            tp_encode-frame lib (array 1) [] head (size - length (replicate 5 0 ++ head))
                (some (5 + calls.sync_at)) (omega (arith, total, behind)),
            get_request_data-frame [] (head ++ one)
                (size - length (replicate 5 0 ++ head) - length one) (some (5 + calls.sync_at)) i
                (omega (arith, total, behind)),
            append_assoc head one request_map,
            left,
          )
          refl
