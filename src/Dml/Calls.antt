-- ===== src/Dml/Calls.antt =====
-- Sequences of calls on a request, and what comes of a value or an operation that is well formed.
use nginx_upstream_module.Common.{
  [], ◌∷◌, Option, ◌≡◌, List, some, refl, none, Bool, ◌++◌, ◌∙◌, sym, ap,
}
use nginx_upstream_module.Dml.Bind.{
  and_then, TpCall, Result, ngx_ok, bad_request, ngx_error, Readers, issued, bind_values, bind_slot,
  Binding,
}
use nginx_upstream_module.Dml.State.{ReqType, Prepared, FormatValue}

pub and_then_cong :
    {A B : Type 0} (r : Result A) (f g : A → Result B)
    → ((a : A) → f a ≡ g a)
    → and_then r f ≡ and_then r g
unfolding and_then
and_then_cong (ngx_ok a) f g same = same a
and_then_cong (bad_request text) f g same = refl
and_then_cong ngx_error f g same = refl

pub and_then_assoc :
    {A B C : Type 0} (r : Result A) (f : A → Result B) (g : B → Result C)
    → and_then (and_then r f) g ≡ and_then r (λ a. and_then (f a) g)
unfolding and_then
and_then_assoc (ngx_ok a) f g = refl
and_then_assoc (bad_request text) f g = refl
and_then_assoc ngx_error f g = refl

abbrev pub carry : {A : Type 0} → (A → Option A) → Option A → Option A
carry f none = none
carry f (some a) = f a

module _ {A : Type 0} (call : TpCall → A → Option A) where
  -- The calls one after the other, until one gives NULL.
  unfoldable pub runs : List TpCall → A → Option A
  runs [] tp = some tp
  runs (k ∷ ks) tp = carry (runs ks) (call k tp)

module _ {A : Type 0} (c : Readers) (call : TpCall → A → Option A) (error_memory : Bool) where
  abbrev Issued : Option A → Result A
  Issued o = issued c call error_memory o

  issued-carry :
      {B : Type 0} (f : A → Option A) (o : Option A) (g : A → Result B)
      → and_then (Issued (carry f o)) g ≡ and_then (Issued o) (λ a. and_then (Issued (f a)) g)
  unfolding and_then
  issued-carry f none g = refl
  issued-carry f (some a) g = refl

  -- Calls made one after the other are made as one sequence.
  pub runs-append :
      {B : Type 0} (ks ls : List TpCall) (tp : A) (g : A → Result B)
      → and_then (Issued (runs call ks tp)) (λ tp'. and_then (Issued (runs call ls tp')) g)
        ≡ and_then (Issued (runs call (ks ++ ls) tp)) g
  unfolding runs and_then
  runs-append [] ls tp g = refl
  runs-append (k ∷ ks) ls tp g =
      issued-carry (runs call ks) (call k tp) (λ tp'. and_then (Issued (runs call ls tp')) g)
      ∙ and_then_cong (Issued (call k tp)) _ _ (λ a. runs-append ks ls a g)
      ∙ sym (issued-carry (runs call (ks ++ ls)) (call k tp) g)

  -- Values that are bound by a sequence of calls, whether the operations have begun before and after.
  abbrev pub Binds : ReqType → Prepared → Bool → List FormatValue → List TpCall → Bool → Type 0
  Binds type p s vs ks s' =
      (tp : A)
      → bind_values c call error_memory type p vs (tp, s)
        ≡ and_then (Issued (runs call ks tp)) (λ tp'. ngx_ok (tp', s'))

  abbrev pub BindsOne : ReqType → Prepared → Bool → FormatValue → List TpCall → Bool → Type 0
  BindsOne type p s v ks s' =
      (tp : A)
      → bind_slot c call error_memory type p v v.value (tp, s)
        ≡ and_then (Issued (runs call ks tp)) (λ tp'. ngx_ok (tp', s'))

  module _ (type : ReqType) (p : Prepared) where
    pub Binds-nil : (s : Bool) → Binds type p s [] [] s
    unfolding bind_values runs and_then
    Binds-nil s tp = refl

    pub Binds-cons :
        (s s' s'' : Bool) (v : FormatValue) (vs : List FormatValue) (ks ls : List TpCall)
        → BindsOne type p s v ks s'
        → Binds type p s' vs ls s''
        → Binds type p s (v ∷ vs) (ks ++ ls) s''
    unfolding bind_values and_then
    Binds-cons s s' s'' v vs ks ls one rest tp =
        ap (λ r. and_then r (λ b. bind_values c call error_memory type p vs b)) (one tp)
        ∙ and_then_assoc (Issued (runs call ks tp)) _ _
        ∙ and_then_cong (Issued (runs call ks tp)) _ _ (λ tp'. rest tp')
        ∙ runs-append ks ls tp (λ tp'. ngx_ok (tp', s''))

    at_once :
        (b : Binding c call error_memory) (vs : List FormatValue)
        → and_then (ngx_ok b) (λ b'. bind_values c call error_memory type p vs b')
          ≡ bind_values c call error_memory type p vs b
    unfolding and_then
    at_once b vs = refl

    bind_values-append :
        (vs ws : List FormatValue) (b : Binding c call error_memory)
        → bind_values c call error_memory type p (vs ++ ws) b
          ≡ and_then
              (bind_values c call error_memory type p vs b)
              (λ b'. bind_values c call error_memory type p ws b')
    unfolding bind_values and_then
    bind_values-append [] ws b = refl
    bind_values-append (v ∷ vs) ws b =
        and_then_cong (bind_slot c call error_memory type p v v.value b) _ _
          (λ b'. bind_values-append vs ws b')
        ∙ sym (and_then_assoc (bind_slot c call error_memory type p v v.value b) _ _)

    pub Binds-append :
        (s s' s'' : Bool) (vs ws : List FormatValue) (ks ls : List TpCall)
        → Binds type p s vs ks s'
        → Binds type p s' ws ls s''
        → Binds type p s (vs ++ ws) (ks ++ ls) s''
    Binds-append s s' s'' vs ws ks ls first second tp =
        bind_values-append vs ws (tp, s)
        ∙ ap (λ r. and_then r (λ b. bind_values c call error_memory type p ws b)) (first tp)
        ∙ and_then_assoc (Issued (runs call ks tp)) _ _
        ∙ and_then_cong (Issued (runs call ks tp)) _ _ (λ tp'. at_once (tp', s') ws ∙ second tp')
        ∙ runs-append ks ls tp (λ tp'. ngx_ok (tp', s''))
