-- ===== src/Dml/Formats.antt =====
use nginx_upstream_module.Dml.Compile.{
  Meaning, first_meaning, key_of, meaning, value_of, operation_of, its_limit, its_offset,
  its_iter_type, its_space_id, its_index_id,
}
use nginx_upstream_module.Dml.State.{
  ReqType, TpType, tp_update, tp_upsert, tp_int, tp_double, tp_float, tp_str, tp_bool,
}
use nginx_upstream_module.Common.{[], ◌∷◌, false, Bytes, codes, ◌≡◌, ◌++◌, some, refl, ℕ, ◌==◌}
use nginx_upstream_module.Dml.Access.{strncmp}
use nginx_upstream_module.Url.Args.{Without}  -- Formats as they are written, and what comes of them.

abbrev pub letter : TpType → ℕ
letter tp_int = b'n'
letter tp_double = b'd'
letter tp_float = b'f'
letter tp_str = b's'
letter tp_bool = b'b'

-- What a meaning is written as, behind a `%`.
abbrev pub letters : Meaning → Bytes
letters its_limit = codes "%lim"
letters its_offset = codes "%off"
letters its_iter_type = codes "%it"
letters its_space_id = codes "%space_id"
letters its_index_id = codes "%idx_id"
letters (value_of t) = letter t ∷ []
letters (key_of t) = b'k' ∷ letter t ∷ []
letters (operation_of t) = b'o' ∷ letter t ∷ []

abbrev pub spelling : Meaning → Bytes
spelling m = b'%' ∷ letters m

abbrev IsInside : ℕ → Type 0
IsInside b = ((b == b',') ≡ false) × ((b == b'&') ≡ false)

letter-IsInside : (t : TpType) → IsInside (letter t)
letter-IsInside tp_int = (refl, refl)
letter-IsInside tp_double = (refl, refl)
letter-IsInside tp_float = (refl, refl)
letter-IsInside tp_str = (refl, refl)
letter-IsInside tp_bool = (refl, refl)

-- No letter ends an item.
pub letters-Without : (m : Meaning) → Without b',' (letters m) × Without b'&' (letters m)
letters-Without its_limit = ((refl, (refl, (refl, (refl, tt)))), (refl, (refl, (refl, (refl, tt)))))
letters-Without its_offset =
    ((refl, (refl, (refl, (refl, tt)))), (refl, (refl, (refl, (refl, tt)))))
letters-Without its_iter_type = ((refl, (refl, (refl, tt))), (refl, (refl, (refl, tt))))
letters-Without its_space_id = (
  (refl, (refl, (refl, (refl, (refl, (refl, (refl, (refl, (refl, tt))))))))),
  (refl, (refl, (refl, (refl, (refl, (refl, (refl, (refl, (refl, tt))))))))),
)
letters-Without its_index_id = (
  (refl, (refl, (refl, (refl, (refl, (refl, (refl, tt))))))),
  (refl, (refl, (refl, (refl, (refl, (refl, (refl, tt))))))),
)
letters-Without (value_of t) = let i = letter-IsInside t in (((i.0), tt), ((i.1), tt))
letters-Without (key_of t) = let i = letter-IsInside t in ((refl, ((i.0), tt)), (refl, ((i.1), tt)))
letters-Without (operation_of t) =
    let i = letter-IsInside t in ((refl, ((i.0), tt)), (refl, ((i.1), tt)))

-- Keys are for updates, and operations for upserts.
abbrev pub IsMeant : ReqType → Meaning → Type 0
IsMeant type (key_of t) = type ≡ tp_update
IsMeant type (operation_of t) = type ≡ tp_upsert
IsMeant type _ = Unit {0}

value-meaning :
    (type : ReqType) (t : TpType) (rest : Bytes)
    → meaning type (spelling (value_of t) ++ rest) ≡ some (value_of t)
unfolding first_meaning strncmp
value-meaning type tp_int rest = refl
value-meaning type tp_double rest = refl
value-meaning type tp_float rest = refl
value-meaning type tp_str rest = refl
value-meaning type tp_bool rest = refl

key-meaning :
    (t : TpType) (rest : Bytes) → meaning tp_update (spelling (key_of t) ++ rest) ≡ some (key_of t)
unfolding first_meaning strncmp
key-meaning tp_int rest = refl
key-meaning tp_double rest = refl
key-meaning tp_float rest = refl
key-meaning tp_str rest = refl
key-meaning tp_bool rest = refl

operation-meaning :
    (t : TpType) (rest : Bytes)
    → meaning tp_upsert (spelling (operation_of t) ++ rest) ≡ some (operation_of t)
unfolding first_meaning strncmp
operation-meaning tp_int rest = refl
operation-meaning tp_double rest = refl
operation-meaning tp_float rest = refl
operation-meaning tp_str rest = refl
operation-meaning tp_bool rest = refl

pub meaning-spelling :
    (type : ReqType) (m : Meaning) (rest : Bytes)
    → IsMeant type m
    → meaning type (spelling m ++ rest) ≡ some m
unfolding first_meaning strncmp
meaning-spelling type its_limit rest h = refl
meaning-spelling type its_offset rest h = refl
meaning-spelling type its_iter_type rest h = refl
meaning-spelling type its_space_id rest h = refl
meaning-spelling type its_index_id rest h = refl
meaning-spelling type (value_of t) rest h = value-meaning type t rest
meaning-spelling type (key_of t) rest h = rw h (key-meaning t rest)
meaning-spelling type (operation_of t) rest h = rw h (operation-meaning t rest)
