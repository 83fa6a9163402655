-- ===== src/Dml/State.antt =====
-- The values of a format, and what is prepared of a request.
use nginx_upstream_module.Common.{ℕ, Bytes, List, Option, Bool}

-- `enum tp_type`, as far as a format names it.
pub data TpType : Type 0 where
  tp_int tp_double tp_float tp_str tp_bool : TpType

-- The request types that a format tells apart.
pub data ReqType : Type 0 where
  tp_update tp_upsert other_type : ReqType

pub data IterType : Type 0 where
  eq req all lt le ge gt all_set any_set all_non_set overlaps neighbor : IterType

-- ngx_http_tnt_format_value_t. A name has its `=` with it; a value is `none` while its data is NULL.
pub record FormatValue : Type 0 where
  pub name : Bytes
  pub value : Option Bytes
  pub type : TpType
  pub update_key : Bool
  pub upsert_op : Bool

-- What ngx_http_tnt_loc_conf_t has for these requests. A name that is not set is empty; a list of
-- allowed numbers is `none` where nothing is forbidden, the values are `none` without a format.
pub record Conf : Type 0 where
  pub req_type : ReqType
  pub space_id : ℕ
  pub index_id : ℕ
  pub select_offset : ℕ
  pub select_limit : ℕ
  pub select_limit_max : ℕ
  pub iter_type : IterType
  pub limit_name : Bytes
  pub offset_name : Bytes
  pub iter_type_name : Bytes
  pub space_id_name : Bytes
  pub index_id_name : Bytes
  pub allowed_spaces : Option (List ℕ)
  pub allowed_indexes : Option (List ℕ)
  pub format_values : Option (List FormatValue)

-- ngx_http_tnt_prepared_result_t, with the values of the request's context.
pub record Prepared : Type 0 where
  pub limit : ℕ
  pub offset : ℕ
  pub index_id : ℕ
  pub space_id : ℕ
  pub iter_type : IterType
  pub tuples_count : ℕ
  pub update_keys_count : ℕ
  pub upsert_tuples_count : ℕ
  pub format_values : List FormatValue

-- What is still to come of the arguments that a format asks for: EXPECTS_LIMIT and so on.
pub record Expects : Type 0 where
  pub limit : Bool
  pub offset : Bool
  pub iter_type : Bool
  pub space_id : Bool
  pub index_id : Bool
