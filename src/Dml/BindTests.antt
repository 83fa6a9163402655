-- ===== src/Dml/BindTests.antt =====
-- An update from its query string to its calls, and an upsert.
use nginx_upstream_module.Dml.Format.{Outcome}
use nginx_upstream_module.Common.{
  true, false, [], ◌∷◌, Bytes, Bool, List, All, Option, codes, some, ℕ, get_or, none, ◌≡◌, arith,
  ◌-◌, ◌++◌, refl,
}
use nginx_upstream_module.Dml.Bind.{
  TpCall, Readers, is_operation, value_call, bind_operation, number_call, format_bind, encode_uint,
  op, num_buf, encode_str, ngx_ok, updatebegin,
}
use nginx_upstream_module.Dml.State.{
  FormatValue, Conf, Prepared, tp_update, IterType, tp_int, tp_str,
}
use nginx_upstream_module.Dml.Binding.{
  Plain, Operation, IsOperation, IsPlain, plain_slot, operation_slot,
}
use nginx_upstream_module.Dml.Format.{format_prepare, initial, decided}
use nginx_upstream_module.Dml.Calls.{runs}
use nginx_upstream_module.Common.Int.{pos}
use nginx_upstream_module.Url.Form.{Pair, IsPair, query}
use nginx_upstream_module.Dml.Prepare.{
  prepare_args, prepare_arg, take_argument, argument, is_named, fill, is_open,
}
use nginx_upstream_module.Dml.Operations.{bind_operation-spelled}
use nginx_upstream_module.Url.{get_next_arg_from}
use nginx_upstream_module.Dml.Update.{format_bind-update}
use nginx_upstream_module.Dml.Access.{strncmp}

-- A request is the calls that were made on it; there is always room.
abbrev traced : TpCall → List TpCall → Option (List TpCall)
traced k tp = some (tp ++ (k ∷ []))

-- One digit, as ngx_atoi and atoll read it.
abbrev digit : Bytes → Option ℕ
digit (b ∷ []) = some (b - b'0')
digit _ = none

abbrev digit_readers : Readers
digit_readers = record {
  ngx_atoi = digit;
  atoll = λ text. pos (get_or text 0 b'0' - b'0');
  atof = λ text. 0;
  as_float = λ bits. bits;
}

abbrev key_value : FormatValue
key_value = record {
  name = codes "k=";
  value = none;
  type = tp_int;
  update_key = true;
  upsert_op = false;
}

abbrev column : Bool → FormatValue
column upsert_op = record {
  name = codes "a=";
  value = none;
  type = tp_str;
  update_key = false;
  upsert_op = upsert_op;
}

abbrev update_conf : Conf
update_conf = record {
  req_type = tp_update;
  space_id = 512;
  index_id = 0;
  select_offset = 0;
  select_limit = 0;
  select_limit_max = 100;
  iter_type = IterType.eq;
  limit_name = [];
  offset_name = [];
  iter_type_name = [];
  space_id_name = [];
  index_id_name = [];
  allowed_spaces = none;
  allowed_indexes = none;
  format_values = some (key_value ∷ column false ∷ []);
}

abbrev key : Plain
key = record { slot = key_value; text = codes "7"; call_of = encode_uint 7 }

abbrev assignment : Bool → Operation
assignment upsert_op = record {
  slot = column upsert_op;
  text = codes "=,2,xy";
  rest = codes "xy";
  op_call = op b'=' 1;
  call_of = encode_str (codes "xy");
}

-- The operation `=` on the second field.
assignment_spelled :
    bind_operation digit_readers (codes "a=") (codes "=,2,xy") ≡ ngx_ok (op b'=' 1, codes "xy")
unfolding is_operation
assignment_spelled =
    bind_operation-spelled digit_readers (codes "a=") b'=' 1 (codes "2") (codes "xy") refl
      (refl, tt) (omega arith) refl

key-IsPlain : IsPlain digit_readers key
unfolding value_call number_call num_buf
key-IsPlain = refl

assignment-IsOperation : (upsert_op : Bool) → IsOperation digit_readers (assignment upsert_op)
unfolding value_call
assignment-IsOperation upsert_op = record { operation_law = assignment_spelled; value_law = refl }

abbrev update_query : List Pair
update_query =
    record { key = codes "k"; value = codes "7" }
    ∷ record { key = codes "a"; value = codes "=,2,xy" }
    ∷ []

update_query-IsPair : All IsPair update_query
update_query-IsPair = (
  record {
    key_equals = (refl, tt);
    key_ends = (refl, tt);
    value_ends = (refl, tt);
    value_not_empty = omega arith;
  },
  (
    record {
      key_equals = (refl, tt);
      key_ends = (refl, tt);
      value_ends = (refl, (refl, (refl, (refl, (refl, (refl, tt))))));
      value_not_empty = omega arith;
    },
    tt,
  ),
)

abbrev update_ready : Prepared
update_ready = record (initial update_conf []) {
  tuples_count = 1;
  update_keys_count = 1;
  format_values = plain_slot key ∷ operation_slot (assignment false) ∷ [];
}

update_prepared :
    format_prepare digit [] update_conf true
      (initial update_conf (key_value ∷ column false ∷ []))
      (query update_query)
    ≡ Outcome.ngx_ok update_ready
unfolding format_prepare prepare_args decided prepare_arg get_next_arg_from take_argument argument
    is_named strncmp fill is_open
update_prepared = refl

format_bind-update_example :
    format_bind digit_readers traced true tp_update update_ready []
    ≡ ngx_ok (encode_uint 7 ∷ updatebegin 1 ∷ op b'=' 1 ∷ encode_str (codes "xy") ∷ [])
unfolding runs
format_bind-update_example =
    format_bind-update digit_readers traced true [] update_conf true (key_value ∷ column false ∷ [])
      update_query update_ready (key ∷ []) (assignment false) [] [] update_query-IsPair
      update_prepared refl ((refl, key-IsPlain), tt) ((refl, assignment-IsOperation false), tt)
      (refl, tt) (omega arith)

abbrev upsert_ready : Prepared
upsert_ready = record (initial update_conf []) {
  tuples_count = 1;
  upsert_tuples_count = 1;
  format_values = plain_slot key ∷ operation_slot (assignment true) ∷ [];
}
