-- ===== src/Shared/Json.antt =====
-- A JSON value as serde_json gives it, and how serde's derived code reads one; an error is `none`, since
-- every one is answered in the same way.
use Prim.Native.String.{String}
use omniscient.Prelude.{ℕ, zero, suc, ◌==◌, Option, none, some, List, [], ◌∷◌, ltb, if◌then◌else◌}
use omniscient.Shared.Domain.{bytes_eq}
use omniscient.Shared.Hex.{Text}
use omniscient.Shared.Signing.{as_bytes}

-- `other` is null, a Boolean, or a number that is negative or has a fraction or an exponent.
mutual
  pub data Value : Type 0 where
    string : Text → Value
    number : ℕ → Value
    array : Values → Value
    object : Fields → Value
    other : Value

  pub data Values : Type 0 where
    nil : Values
    cons : Value → Values → Values

  pub data Fields : Type 0 where
    no_fields : Fields
    entry : Text → Value → Fields → Fields

infixl 5 ◌>>=◌
abbrev pub ◌>>=◌ : {A B : Type 0} → Option A → (A → Option B) → Option B
none >>= f = none
some a >>= f = f a

-- `String::deserialize`, `u64::deserialize`, `u8::deserialize`
abbrev pub string_of : Value → Option Text
string_of (string s) = some s
string_of _ = none

abbrev pub number_below : ℕ → Value → Option ℕ
number_below limit (number n) = if ltb n limit then some n else none
number_below limit _ = none

-- The derived `Deserialize` of a record: an object that has the field once, with any other fields,
-- or an array of all the fields in their order.
unfoldable pub entries : Text → Fields → List Value
entries name no_fields = []
entries name (entry key v fs) =
    let rest = entries name fs in if bytes_eq key name then v ∷ rest else rest

abbrev pub only : List Value → Option Value
only [] = none
only (v ∷ []) = some v
only (v ∷ (w ∷ vs)) = none

abbrev pub count : Values → ℕ
count nil = 0
count (cons v vs) = suc (count vs)

abbrev pub at : ℕ → Values → Option Value
at i nil = none
at zero (cons v vs) = some v
at (suc i) (cons v vs) = at i vs

-- The field of this name, at this place of so many.
abbrev pub field_of : String → ℕ → ℕ → Value → Option Value
field_of name i n (object fs) = only (entries (as_bytes name) fs)
field_of name i n (array vs) = if count vs == n then at i vs else none
field_of name i n _ = none
