-- ===== src/Pass/Tests.antt =====
-- A PUT with arguments, a header and an urlencoded body, passed on with all that can be.
use nginx_upstream_module.Pass.Query.{TpCalls, query_handler}
use nginx_upstream_module.Common.{
  List, true, codes, if◌then◌else◌, leb, false, arith, ◌∷◌, length, [], refl, replicate, ◌++◌, ◌≡◌,
  some, ◌+◌, ◌-◌,
}
use nginx_upstream_module.Pass.{PassConf, HttpRequest, get_request_data_map, done}
use nginx_upstream_module.Dml.Format.{unparsed_body}
use nginx_upstream_module.Url.{urldecode, unescaped, isxdigit}
use nginx_upstream_module.Url.Form.{Pair}
use nginx_upstream_module.Pass.Text.{IsPassed, enough}
use nginx_upstream_module.Common.Int.{pos}
use nginx_upstream_module.Tp.Sample.{sample_lib}
use nginx_upstream_module.Tp.{accepted, null}
use nginx_upstream_module.Pass.Requests.{
  map_buffer, get_request_data_map-request, query_body, query_handler-request,
}
use nginx_upstream_module.Tp.Frame.{frame}

abbrev sample_calls : TpCalls
sample_calls = record {
  tp_call = λ t f.
      if leb (length (replicate 5 0 ++ (0x82 ∷ f))) t.room
      then accepted (record t { size = some (length t.out); sync = some (length t.out + 5 + 1) })
          (replicate 5 0 ++ (0x82 ∷ f))
      else null;
  packet = λ f. 0x82 ∷ f;
  sync_at = 1;
  call_law = λ t f. refl;
}

abbrev args_pairs : List Pair
args_pairs = record { key = codes "a"; value = codes "%41" } ∷ []

abbrev form_pairs : List Pair
form_pairs = record { key = codes "k"; value = codes "v" } ∷ []

abbrev all_parts : PassConf
all_parts = record {
  parse_args = true;
  unescape = true;
  pass_body = true;
  pass_headers_out = false;
  parse_urlencoded = true;
  pass_subrequest_uri = false;
}

abbrev put_request : HttpRequest
put_request = record {
  http_protocol = codes "HTTP/1.1";
  method_name = codes "PUT";
  uri = codes "/t";
  unparsed_uri = codes "/t?a";
  args = codes "a=%41";
  headers_in = record { key = codes "Host"; value = codes "h" } ∷ [];
  headers_out = [];
  content_length_n = pos 3;
  request_bufs =
      record { in_file = false; bytes = codes "k="; behind = [] }
      ∷ record { in_file = false; bytes = codes "v"; behind = [] }
      ∷ [];
}

put_request-IsPassed : IsPassed all_parts put_request args_pairs form_pairs (codes "k=v")
unfolding unparsed_body
put_request-IsPassed = record {
  args_are = refl;
  args_law = (
    record {
      key_equals = (refl, tt);
      key_ends = (refl, tt);
      value_ends = (refl, (refl, (refl, tt)));
      value_not_empty = omega arith;
    },
    tt,
  );
  body_is = refl;
  length_is = λ e. refl;
  form_is = λ e. refl;
  form_law = (
    record {
      key_equals = (refl, tt);
      key_ends = (refl, tt);
      value_ends = (refl, tt);
      value_not_empty = omega arith;
    },
    tt,
  );
}

get_request_data_map-request_example :
    get_request_data_map sample_lib all_parts enough put_request true 200
    ≡ done (map_buffer sample_lib all_parts put_request args_pairs form_pairs (codes "k=v") 200) 0
unfolding urldecode unescaped isxdigit
get_request_data_map-request_example =
    get_request_data_map-request sample_lib all_parts put_request args_pairs form_pairs
      (codes "k=v") 200 put_request-IsPassed (omega arith)

query_handler-request_example :
    query_handler sample_lib sample_calls all_parts enough put_request true true 200 (codes "f")
    ≡ done
        (frame []
          (query_body sample_lib all_parts put_request args_pairs form_pairs
            (codes "k=v")
            sample_calls
            (codes "f"))
          (200
            - (5
                + length (
                    query_body sample_lib all_parts put_request args_pairs form_pairs
                      (codes "k=v")
                      sample_calls
                      (codes "f"))))
          (some 6))
        0
unfolding urldecode unescaped isxdigit
query_handler-request_example =
    query_handler-request sample_lib all_parts put_request args_pairs form_pairs (codes "k=v")
      sample_calls (codes "f") 200 put_request-IsPassed (omega arith)
