-- ===== src/Dml/CompileTests.antt =====
-- A format of an update, compiled.
use nginx_upstream_module.Common.{
  true, false, [], ◌∷◌, List, All, Bytes, codes, Bool, ◌≡◌, none, some, refl,
}
use nginx_upstream_module.Dml.State.{Conf, tp_update, TpType, IterType, tp_int, FormatValue, tp_str}
use nginx_upstream_module.Dml.Compile.{
  format_compile, compile_from, compile_value, key_of, first_meaning, conf_ok, at_null,
  its_index_id, unknown_format, value_of,
}
use nginx_upstream_module.Dml.Compiles.{FormatItem, IsFormatItem}
use nginx_upstream_module.Dml.Access.{strncmp}
use nginx_upstream_module.Dml.Whole.{format_compile-format_text}

abbrev empty_conf : Conf
empty_conf = record {
  req_type = tp_update;
  space_id = 512;
  index_id = 0;
  select_offset = 0;
  select_limit = 0;
  select_limit_max = 100;
  iter_type = IterType.eq;
  limit_name = [];
  offset_name = [];
  iter_type_name = [];
  space_id_name = [];
  index_id_name = [];
  allowed_spaces = none;
  allowed_indexes = none;
  format_values = none;
}

abbrev items : List FormatItem
items =
    record { name = codes "k"; means = key_of tp_int }
    ∷ record { name = codes "i"; means = its_index_id }
    ∷ record { name = codes "a"; means = value_of tp_str }
    ∷ []

items-IsFormatItem : All (IsFormatItem tp_update) items
items-IsFormatItem = (
  record {
    no_equals = (refl, tt);
    no_comma = (refl, tt);
    no_ampersand = (refl, tt);
    is_meant = refl;
  },
  (
    record {
      no_equals = (refl, tt);
      no_comma = (refl, tt);
      no_ampersand = (refl, tt);
      is_meant = tt;
    },
    (
      record {
        no_equals = (refl, tt);
        no_comma = (refl, tt);
        no_ampersand = (refl, tt);
        is_meant = tt;
      },
      tt,
    ),
  ),
)

abbrev format_value : Bytes → TpType → Bool → FormatValue
format_value name type update_key = record {
  name = name;
  value = none;
  type = type;
  update_key = update_key;
  upsert_op = false;
}

format_compile-format_text_example :
    format_compile false false empty_conf (codes "k=%kn,i=%%idx_id,a=%s")
    ≡ conf_ok (record empty_conf {
      index_id_name = codes "i=";
      format_values =
          some
            (format_value (codes "k=") tp_int true ∷ format_value (codes "a=") tp_str false ∷ []);
    })
format_compile-format_text_example =
    format_compile-format_text false false items empty_conf items-IsFormatItem

-- A value that has no type is compared at NULL.
no_type : format_compile false false empty_conf (codes "a") ≡ at_null
unfolding compile_from compile_value
no_type = refl

-- A value of an update is a key where the memory of the array says so.
stale_key :
    format_compile true false empty_conf (codes "a=%n")
    ≡ conf_ok
        (record empty_conf { format_values = some (format_value (codes "a=") tp_int true ∷ []) })
unfolding compile_from compile_value first_meaning strncmp
stale_key = refl

unknown_type : format_compile false false empty_conf (codes "a=%x") ≡ unknown_format
unfolding compile_from compile_value first_meaning strncmp
unknown_type = refl
