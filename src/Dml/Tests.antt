-- ===== src/Dml/Tests.antt =====
use nginx_upstream_module.Common.{
  ℕ, Bytes, List, All, Option, [], codes, some, none, ◌≡◌, arith, ◌≢◌, ◌∷◌, true, ◌*◌, false, ◌+◌,
  refl, ◌-◌, if◌then◌else◌, leb, ◌&&◌, ◌++◌,
}
use nginx_upstream_module.Dml.State.{
  Conf, Prepared, TpType, FormatValue, other_type, tp_int, IterType, tp_str,
}
use nginx_upstream_module.Dml.Format.{
  format_request, format_prepare, Request, initial, ngx_ok, not_allowed, bad_request, out_of_fuel,
  format_init, decided, format_read_input,
}
use nginx_upstream_module.Dml.Allowed.{IsAllowed, format_request-IsAllowed}
use nginx_upstream_module.Dml.Counts.{IsCounted, bound, format_request-IsCounted}
use nginx_upstream_module.Dml.Access.{set_iter_type, strncmp, first_named, is_among}
use nginx_upstream_module.Dml.Prepare.{
  prepare_args, tuples, prepare_arg, take_argument, argument, is_named, set_limit, fill, is_open,
}
use nginx_upstream_module.Url.Form.{Pair, IsPair, query}
use nginx_upstream_module.Common.Int.{pos}
use nginx_upstream_module.Dml.Iterators.{set_iter_type_shadowed}
use nginx_upstream_module.Dml.Tally.{format_prepare-counted}
use nginx_upstream_module.Dml.Ends.{format_request_ends}
use nginx_upstream_module.Url.{urldecode, get_next_arg_from}
use nginx_upstream_module.Dml.Numbers.{read_array_of_uint, read_array_of_uint-with_commas}  -- A format with a limit, an index and two values, and requests by it.

-- Decimal digits, as ngx_atoi reads them.
abbrev digits_from : ℕ → Bytes → Option ℕ
digits_from n [] = some n
digits_from n (b ∷ bs) =
    let rest = digits_from (10 * n + (b - b'0')) bs in
    if leb b'0' b && leb b b'9' then rest else none

abbrev atoi : Bytes → Option ℕ
atoi [] = none
atoi (b ∷ bs) = digits_from 0 (b ∷ bs)

abbrev named_value : Bytes → TpType → FormatValue
named_value name type = record {
  name = name;
  value = none;
  type = type;
  update_key = false;
  upsert_op = false;
}

abbrev two_columns : List FormatValue
two_columns = named_value (codes "a=") tp_int ∷ named_value (codes "b=") tp_str ∷ []

abbrev conf : Conf
conf = record {
  req_type = other_type;
  space_id = 512;
  index_id = 0;
  select_offset = 0;
  select_limit = 10;
  select_limit_max = 100;
  iter_type = IterType.eq;
  limit_name = codes "l=";
  offset_name = [];
  iter_type_name = codes "i=";
  space_id_name = [];
  index_id_name = [];
  allowed_spaces = some (512 ∷ []);
  allowed_indexes = none;
  format_values = some two_columns;
}

abbrev request : Bytes → Request
request args = record {
  args = args;
  content_length_n = pos 0;
  request_bufs = [];
  body_memory = true;
  input_memory = true;
  values_memory = true;
  error_memory = true;
}

abbrev asked : Prepared
asked = record (initial conf []) {
  limit = 7;
  iter_type = IterType.ge;
  tuples_count = 2;
  format_values =
      record (named_value (codes "a=") tp_int) { value = some (codes "1") }
      ∷ record (named_value (codes "b=") tp_str) { value = some (codes "x y") }
      ∷ [];
}

prepared_values : format_request atoi [] conf (request (codes "a=1&l=7&i=ge&b=x+y")) ≡ ngx_ok asked
unfolding format_request format_prepare prepare_args format_init format_read_input decided urldecode
    prepare_arg get_next_arg_from take_argument argument is_named strncmp set_limit first_named
    is_among fill is_open
prepared_values = refl

abbrev counted_twice : Prepared
counted_twice = record (initial conf []) {
  limit = 7;
  iter_type = IterType.ge;
  tuples_count = 2;
  format_values =
      record (named_value (codes "a=") tp_int) { value = some (codes "1") }
      ∷ named_value (codes "b=") tp_str
      ∷ [];
}

-- A value that comes first without and then with bytes is bound once and counted twice.
empty_value : format_request atoi [] conf (request (codes "a=&l=7&i=ge&a=1")) ≡ ngx_ok counted_twice
unfolding format_request format_prepare prepare_args format_init format_read_input decided urldecode
    prepare_arg get_next_arg_from take_argument argument is_named strncmp set_limit first_named
    is_among fill is_open
empty_value = refl

too_many : format_request atoi [] conf (request (codes "a=1&l=101&i=ge")) ≡ not_allowed
unfolding format_request format_prepare prepare_args format_init format_read_input decided urldecode
    prepare_arg get_next_arg_from take_argument argument is_named strncmp set_limit fill is_open
too_many = refl

no_limit : format_request atoi [] conf (request (codes "a=1&i=ge")) ≡ bad_request
unfolding format_request format_prepare prepare_args format_init format_read_input decided urldecode
    prepare_arg get_next_arg_from take_argument argument is_named strncmp first_named is_among fill
    is_open
no_limit = refl

format_request-IsAllowed_example : IsAllowed conf asked
format_request-IsAllowed_example =
    format_request-IsAllowed atoi [] conf (request (codes "a=1&l=7&i=ge&b=x+y")) asked (omega arith)
      prepared_values

format_request-IsCounted_example : IsCounted counted_twice
format_request-IsCounted_example =
    format_request-IsCounted atoi [] conf (request (codes "a=&l=7&i=ge&a=1")) counted_twice
      empty_value

set_iter_type_shadowed_example :
    (set_iter_type (codes "all_set") ≢ some IterType.all_set)
    × (set_iter_type (codes "all_set") ≢ some IterType.all_non_set)
set_iter_type_shadowed_example = set_iter_type_shadowed (codes "all_set")

format_request_ends_example : format_request atoi [] conf (request (codes "a=1&&b")) ≢ out_of_fuel
format_request_ends_example = format_request_ends atoi [] conf (request (codes "a=1&&b"))

abbrev arguments : List Pair
arguments =
    record { key = codes "a"; value = codes "1" }
    ∷ record { key = codes "l"; value = codes "7" }
    ∷ record { key = codes "i"; value = codes "ge" }
    ∷ record { key = codes "b"; value = codes "x y" }
    ∷ []

arguments-IsPair : All IsPair arguments
arguments-IsPair = (
  record {
    key_equals = (refl, tt);
    key_ends = (refl, tt);
    value_ends = (refl, tt);
    value_not_empty = omega arith;
  },
  (
    record {
      key_equals = (refl, tt);
      key_ends = (refl, tt);
      value_ends = (refl, tt);
      value_not_empty = omega arith;
    },
    (
      record {
        key_equals = (refl, tt);
        key_ends = (refl, tt);
        value_ends = (refl, (refl, tt));
        value_not_empty = omega arith;
      },
      (
        record {
          key_equals = (refl, tt);
          key_ends = (refl, tt);
          value_ends = (refl, (refl, (refl, tt)));
          value_not_empty = omega arith;
        },
        tt,
      ),
    ),
  ),
)

prepared_pairs :
    format_prepare atoi [] conf true (initial conf two_columns) (query arguments) ≡ ngx_ok asked
unfolding format_prepare prepare_args decided prepare_arg get_next_arg_from take_argument argument
    is_named strncmp set_limit first_named is_among fill is_open
prepared_pairs = refl

format_prepare-counted_example : bound tuples asked.format_values ≡ 2
format_prepare-counted_example =
    format_prepare-counted atoi [] conf true two_columns arguments asked arguments-IsPair
      prepared_pairs tuples

-- The digits at the front of a text, as the C library's atoi reads them.
abbrev leading : ℕ → Bytes → ℕ
leading n [] = n
leading n (b ∷ bs) =
    let rest = leading (10 * n + (b - b'0')) bs in if leb b'0' b && leb b b'9' then rest else n

leading-comma : (s rest : Bytes) (n : ℕ) → leading n (s ++ (b',' ∷ rest)) ≡ leading n s
leading-comma [] rest n = refl
leading-comma (b ∷ bs) rest n = rw (leading-comma bs rest (10 * n + (b - b'0'))) refl

-- The README's `tnt_allowed_spaces 512,523;`.
read_array_of_uint-with_commas_example : read_array_of_uint (leading 0) (codes "512,523") ≡ 512 ∷ []
read_array_of_uint-with_commas_example =
    read_array_of_uint-with_commas (leading 0) (λ s rest h. leading-comma s rest 0)
      (codes "512" ∷ []) (codes "523") ((refl, (refl, (refl, tt))), tt) (refl, (refl, (refl, tt)))
