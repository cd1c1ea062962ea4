-- ===== src/RowDecoder/Domains.antt =====
-- `ColumnType` and its domain identifiers.
use opensqlanywhere.Base.{
  ℕ, refl, ap, ◌∙◌, ◌≡◌, ◌↔◌, Bool, true, false, ◌==◌, if◌then◌else◌, Option, none, some, arith,
}
use opensqlanywhere.RowDecoder.{
  ColumnType, small_int, integer, numeric, integer2, date, char, char2, text, text2, date_time,
  enum, uint64, uint32, int64, boolean,
}

-- The discriminants of the enumeration.
abbrev pub domain_id : ColumnType → ℕ
domain_id small_int = 1
domain_id integer = 2
domain_id numeric = 3
domain_id integer2 = 4
domain_id date = 6
domain_id char = 8
domain_id char2 = 9
domain_id text = 10
domain_id text2 = 11
domain_id date_time = 13
domain_id enum = 19
domain_id uint64 = 20
domain_id uint32 = 21
domain_id int64 = 23
domain_id boolean = 24

unfoldable pub from_domain_id : ℕ → Option ColumnType
from_domain_id id =
    if id == 1
    then some small_int
    else if id == 2
    then some integer
    else if id == 3
    then some numeric
    else if id == 4
    then some integer2
    else if id == 6
    then some date
    else if id == 8
    then some char
    else if id == 9
    then some char2
    else if id == 10
    then some text
    else if id == 11
    then some text2
    else if id == 13
    then some date_time
    else if id == 19
    then some enum
    else if id == 20
    then some uint64
    else if id == 21
    then some uint32
    else if id == 23
    then some int64
    else if id == 24
    then some boolean
    else none

unfoldable pub is_variable : ColumnType → Bool
is_variable char = true
is_variable char2 = true
is_variable text = true
is_variable text2 = true
is_variable other = false

-- `column_type == ColumnType::Boolean`
unfoldable pub is_boolean : ColumnType → Bool
is_boolean boolean = true
is_boolean other = false

from_domain_id-domain_id : (t : ColumnType) → from_domain_id (domain_id t) ≡ some t
unfolding from_domain_id
from_domain_id-domain_id small_int = refl
from_domain_id-domain_id integer = refl
from_domain_id-domain_id numeric = refl
from_domain_id-domain_id integer2 = refl
from_domain_id-domain_id date = refl
from_domain_id-domain_id char = refl
from_domain_id-domain_id char2 = refl
from_domain_id-domain_id text = refl
from_domain_id-domain_id text2 = refl
from_domain_id-domain_id date_time = refl
from_domain_id-domain_id enum = refl
from_domain_id-domain_id uint64 = refl
from_domain_id-domain_id uint32 = refl
from_domain_id-domain_id int64 = refl
from_domain_id-domain_id boolean = refl

-- An identifier gives a column type exactly if it is that type's discriminant.
pub from_domain_id_iff :
    (id : ℕ) (t : ColumnType) → (from_domain_id id ≡ some t) ↔ (id ≡ domain_id t)
unfolding from_domain_id
from_domain_id_iff id t =
    ((λ e. forward e), (λ e. ap from_domain_id e ∙ from_domain_id-domain_id t))
  where
    forward : from_domain_id id ≡ some t → id ≡ domain_id t
    forward e = ground arith
