-- ===== src/JsonString/Tests.antt =====
-- Runs on `a"b`: the literal, and a buffer too short for it.
use nginx_upstream_module.Common.{arith, ◌++◌, Bytes, codes, some, [], false, ◌≡◌}
use nginx_upstream_module.JsonString.Spelling.{literal, spelled}
use nginx_upstream_module.JsonString.{escaped, json_encode_string, Cursor, done, oom}
use nginx_upstream_module.JsonString.Bounds.{json_encode_string-oom, StoppedIn}
use nginx_upstream_module.JsonString.RoundTrip.{read_json_string, read-json_encode_string}

abbrev quoted : Bytes
quoted = codes "a\"b"

json_encode_string-oom_example :
    (c : Cursor) × (json_encode_string (some []) 3 (some quoted) false ≡ oom c)
    × StoppedIn (record { out = []; room = 3 }) (literal false quoted) c
unfolding literal spelled escaped
json_encode_string-oom_example =
    json_encode_string-oom false [] 3 quoted (omega arith) (omega arith)

read-json_encode_string_example :
    (c : Cursor) × (json_encode_string (some []) 6 (some quoted) false ≡ done c)
    × (read_json_string (c.out ++ codes "}") ≡ some (quoted, codes "}"))
unfolding literal spelled escaped
read-json_encode_string_example =
    read-json_encode_string false 6 quoted (codes "}")
      (omega arith, (omega arith, (omega arith, tt))) (omega arith)
