-- ===== src/Dml/Compiles.antt =====
-- A format that is written as it should be, compiled.
use nginx_upstream_module.Common.{
  false, [], ◌∷◌, Bytes, List, Bool, ◌++◌, ◌≡◌, ℕ, Option, some, refl, none, ◌+◌, length, arith,
  drop, ◌==◌, suc, ◌∙◌, ◌-◌, ap₂, take, ap, drop-append, take-append_one,
}
use nginx_upstream_module.Dml.State.{ReqType, Conf}
use nginx_upstream_module.Dml.Compile.{
  Meaning, compile_from, apply, Compiled, value_of, compile_value, compiled, key_of, operation_of,
  name_at, its_limit, its_offset, its_iter_type, its_space_id, its_index_id, is_last, conf_ok,
  meant, meaning,
}
use nginx_upstream_module.Url.Args.{Without}
use nginx_upstream_module.Dml.Formats.{
  IsMeant, spelling, meaning-spelling, letters, letters-Without,
}

-- A name with no `=` behind it, and what it is to be bound to.
pub record FormatItem : Type 0 where
  pub name : Bytes
  pub means : Meaning

pub record IsFormatItem (type : ReqType) (x : FormatItem) : Type 0 where
  pub no_equals : Without b'=' x.name
  pub no_comma : Without b',' x.name
  pub no_ampersand : Without b'&' x.name
  pub is_meant : IsMeant type x.means

abbrev pub item_text : FormatItem → Bytes → Bytes
item_text x rest = x.name ++ (b'=' ∷ (spelling x.means ++ rest))

abbrev pub more_items : List FormatItem → Bytes
more_items [] = []
more_items (x ∷ xs) = b',' ∷ item_text x (more_items xs)

-- `a=%n,b=%s`.
abbrev pub format_text : List FormatItem → Bytes
format_text [] = []
format_text (x ∷ xs) = item_text x (more_items xs)

-- What ends an item: nothing more, or a comma.
abbrev pub EndsItem : Bytes → Type 0
EndsItem [] = Unit {0}
EndsItem (b ∷ bs) = b ≡ b','

pub more_items-EndsItem : (xs : List FormatItem) → EndsItem (more_items xs)
more_items-EndsItem [] = tt
more_items-EndsItem (x ∷ xs) = refl

module _ (stale_key stale_op : Bool) where
  abbrev pub apply_all : List FormatItem → Conf → Conf
  apply_all [] c = c
  apply_all (x ∷ xs) c = apply_all xs (apply stale_key stale_op (x.name ++ (b'=' ∷ [])) x.means c)

  pub apply-req_type :
      (name : Bytes) (m : Meaning) (c : Conf)
      → (apply stale_key stale_op name m c).req_type ≡ c.req_type
  apply-req_type name its_limit c = refl
  apply-req_type name its_offset c = refl
  apply-req_type name its_iter_type c = refl
  apply-req_type name its_space_id c = refl
  apply-req_type name its_index_id c = refl
  apply-req_type name (value_of t) c = refl
  apply-req_type name (key_of t) c = refl
  apply-req_type name (operation_of t) c = refl

  module _ (text : Bytes) where
    abbrev pub From : ℕ → Option ℕ → Option ℕ → Bytes → Conf → Compiled
    From i name type bs c = compile_from stale_key stale_op text i name type bs c

    abbrev ValueAt : ℕ → ℕ → Conf → Compiled
    ValueAt n t c = compile_value stale_key stale_op text n (some t) c

    inside_name :
        (i : ℕ) (nm : Option ℕ) (b : ℕ) (rest : Bytes) (c : Conf)
        → (b == b'=') ≡ false
        → (b == b',') ≡ false
        → (b == b'&') ≡ false
        → is_last stale_key stale_op rest ≡ false
        → From i nm none (b ∷ rest) c
          ≡ From (i + 1) (some (name_at stale_key stale_op i nm)) none rest c
    unfolding compile_from
    inside_name i nm b rest c e k a more = rw (e, k, a, more) refl

    inside_type :
        (i n t b : ℕ) (rest : Bytes) (c : Conf)
        → (b == b',') ≡ false
        → (b == b'&') ≡ false
        → is_last stale_key stale_op rest ≡ false
        → From i (some n) (some t) (b ∷ rest) c ≡ From (i + 1) (some n) (some t) rest c
    unfolding compile_from
    inside_type i n t b rest c k a more = rw (k, a, more) refl

    more_follow :
        (bs : Bytes) (y : ℕ) (ys : Bytes) → is_last stale_key stale_op (bs ++ (y ∷ ys)) ≡ false
    more_follow [] y ys = refl
    more_follow (b ∷ bs) y ys = refl

    past_comma :
        (i n t y : ℕ) (ys : Bytes) (c : Conf)
        → y ≡ b','
        → From i (some n) (some t) (y ∷ ys) c
          ≡ compiled stale_key stale_op text (ValueAt n t c) (λ c'. From (i + 1) none none ys c')
    unfolding compile_from
    past_comma i n t y ys c h = rw h refl

    past_equals :
        (i : ℕ) (nm : Option ℕ) (x : ℕ) (rest : Bytes) (c : Conf)
        → From i nm none (b'=' ∷ x ∷ rest) c
          ≡ From (i + 1) (some (name_at stale_key stale_op i nm)) (some (i + 1)) (x ∷ rest) c
    unfolding compile_from
    past_equals i nm x rest c = refl

    past_name :
        (i : ℕ) (nm : Option ℕ) (name : Bytes) (x : ℕ) (rest : Bytes) (c : Conf)
        → Without b'=' name
        → Without b',' name
        → Without b'&' name
        → From i nm none (name ++ (b'=' ∷ x ∷ rest)) c
          ≡ From
              (i + length name + 1)
              (some (name_at stale_key stale_op i nm))
              (some (i + length name + 1))
              (x ∷ rest)
              c
    past_name i nm [] x rest c e k a =
        let z : i + 0 ≡ i = omega arith in rw z (past_equals i nm x rest c)
    past_name i nm (b ∷ bs) x rest c e k a =
        let z : i + 1 + length bs + 1 ≡ i + suc (length bs) + 1 = omega arith in
        inside_name i nm b (bs ++ (b'=' ∷ x ∷ rest)) c (e.0) (k.0) (a.0)
          (more_follow bs b'=' (x ∷ rest))
        ∙ past_name (i + 1) (some (name_at stale_key stale_op i nm)) bs x rest c (e.1) (k.1) (a.1)
        ∙ rw z refl

    past_type :
        (i n t b : ℕ) (bs tail : Bytes) (c : Conf)
        → Without b',' (b ∷ bs)
        → Without b'&' (b ∷ bs)
        → EndsItem tail
        → From i (some n) (some t) (b ∷ (bs ++ tail)) c
          ≡ compiled stale_key stale_op text
              (ValueAt n t c)
              (λ c'. From (i + length bs + 2) none none (drop 1 tail) c')
    unfolding compile_from
    past_type i n t b [] [] c k a ends = rw (k.0, a.0) refl
    past_type i n t b [] (y ∷ ys) c k a ends =
        let z : i + 1 + 1 ≡ i + 0 + 2 = omega arith in
        inside_type i n t b (y ∷ ys) c (k.0) (a.0) refl
        ∙ past_comma (i + 1) n t y ys c ends
        ∙ rw z refl
    past_type i n t b (b' ∷ bs) tail c k a ends =
        let z : i + 1 + length bs + 2 ≡ i + suc (length bs) + 2 = omega arith in
        inside_type i n t b (b' ∷ (bs ++ tail)) c (k.0) (a.0) refl
        ∙ past_type (i + 1) n t b' bs tail c (k.1) (a.1) ends
        ∙ rw z refl

    -- The value at an item, and what is behind it.
    value_at :
        (pre : Bytes) (x : FormatItem) (rest : Bytes) (type : ReqType) (c : Conf)
        → text ≡ pre ++ item_text x rest
        → IsFormatItem type x
        → c.req_type ≡ type
        → ValueAt (length pre) (length pre + length x.name + 1) c
          ≡ conf_ok (apply stale_key stale_op (x.name ++ (b'=' ∷ [])) x.means c)
    unfolding compile_value
    value_at pre x rest type c same i of_type =
        let name = length x.name in
        let zero_more : length pre ≡ length pre + 0 = omega arith in
        let taken : length pre + name + 1 - length pre ≡ name + 1 = omega arith in
        let behind : length pre + name + 1 ≡ length pre + (name + 1) = omega arith in
        let whole : drop (length pre) text ≡ item_text x rest =
          ap₂ drop zero_more same ∙ drop-append 0 pre (item_text x rest) in
        let its_name : take (length pre + name + 1 - length pre) (drop (length pre) text)
            ≡ x.name ++ (b'=' ∷ []) =
          ap₂ take taken whole ∙ take-append_one x.name b'=' (spelling x.means ++ rest) in
        let its_type : drop (length pre + name + 1) text ≡ spelling x.means ++ rest =
          ap₂ drop behind same
          ∙ drop-append (name + 1) pre (item_text x rest)
          ∙ drop-append 1 x.name (b'=' ∷ (spelling x.means ++ rest)) in
        ap₂ (λ n m. meant stale_key stale_op n m c) its_name
          (ap₂ meaning of_type its_type ∙ meaning-spelling type x.means rest i.is_meant)

    spelled_type :
        (i n t : ℕ) (m : Meaning) (tail : Bytes) (c : Conf)
        → EndsItem tail
        → From i (some n) (some t) (spelling m ++ tail) c
          ≡ compiled stale_key stale_op text
              (ValueAt n t c)
              (λ c'. From (i + length (spelling m) + 1) none none (drop 1 tail) c')
    spelled_type i n t m tail c ends =
        let z : i + length (letters m) + 2 ≡ i + length (spelling m) + 1 = omega arith in
        past_type i n t b'%' (letters m) tail c (refl, (letters-Without m).0)
          (refl, (letters-Without m).1) ends
        ∙ rw z refl

    -- One item, between what is before it and what is behind it.
    pub past_item :
        (pre : Bytes) (x : FormatItem) (tail : Bytes) (type : ReqType) (c : Conf)
        → text ≡ pre ++ item_text x tail
        → IsFormatItem type x
        → c.req_type ≡ type
        → EndsItem tail
        → From (length pre) none none (item_text x tail) c
          ≡ From
              (length pre + length x.name + 1 + length (spelling x.means) + 1)
              none
              none
              (drop 1 tail)
              (apply stale_key stale_op (x.name ++ (b'=' ∷ [])) x.means c)
    past_item pre x tail type c same i of_type ends =
        let t = length pre + length x.name + 1 in
        past_name (length pre) none x.name b'%' (letters x.means ++ tail) c i.no_equals i.no_comma
          i.no_ampersand
        ∙ spelled_type t (length pre) t x.means tail c ends
        ∙ ap
            (λ r.
              compiled stale_key stale_op text r
                (λ c'. From (t + length (spelling x.means) + 1) none none (drop 1 tail) c'))
            (value_at pre x tail type c same i of_type)
