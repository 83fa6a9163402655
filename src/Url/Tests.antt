-- ===== src/Url/Tests.antt =====
-- Runs on `a=%41+&b&c=d`, and on texts of that kind.
use nginx_upstream_module.Common.{
  ℕ, Bool, length, List, leb, codes, true, ◌≡◌, ◌&&◌, ◌∷◌, [], arith, refl, ◌-◌,
}
use nginx_upstream_module.Tp.Sample.{sample_lib}
use nginx_upstream_module.Url.{unescaped, isxdigit, urldecode}
use nginx_upstream_module.Url.Query.{encode_query_args, ngx_ok}
use nginx_upstream_module.Url.Decode.{percent_encode, urldecode-percent_encode}
use nginx_upstream_module.Url.Form.{Pair}
use nginx_upstream_module.Url.Pairs.{pairs_bytes, encode_query_args-query}
use nginx_upstream_module.Tp.Frame.{framed}
use nginx_upstream_module.Reply.Filter.{ngx_ok}

abbrev is_letter : ℕ → Bool
is_letter c = leb b'a' c && leb c b'z'

urldecode-percent_encode_example :
    urldecode (percent_encode true is_letter (codes "a+%z")) ≡ codes "a+%z"
urldecode-percent_encode_example =
    urldecode-percent_encode true is_letter (codes "a+%z") refl refl
      (omega arith, (omega arith, (omega arith, (omega arith, tt))))

abbrev two_pairs : List Pair
two_pairs =
    record { key = codes "a"; value = codes "%41" }
    ∷ record { key = codes "b"; value = codes "x" }
    ∷ []

encode_query_args-query_example :
    encode_query_args sample_lib true true 5 (framed [] [] 50 0) 0 (codes "a=%41&b=x")
    ≡ ngx_ok
        (framed []
          (pairs_bytes sample_lib true two_pairs)
          (50 - length (pairs_bytes sample_lib true two_pairs))
          0)
        2
unfolding urldecode unescaped isxdigit
encode_query_args-query_example =
    encode_query_args-query sample_lib true two_pairs 5 [] [] 50 0 0
      (
        record {
          key_equals = (refl, tt);
          key_ends = (refl, tt);
          value_ends = (refl, (refl, (refl, tt)));
          value_not_empty = omega arith;
        },
        (
          record {
            key_equals = (refl, tt);
            key_ends = (refl, tt);
            value_ends = (refl, tt);
            value_not_empty = omega arith;
          },
          tt,
        ),
      )
      (omega arith) (omega arith)
