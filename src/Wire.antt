-- ===== src/Wire.antt =====
-- frontend/src/lib/api.ts: the JSON objects that cross the socket. The printing and the parsing
-- of JSON are the browser's; an object is the list of its fields.
use token_dance_chat.Base.{
  ℕ, ◌≡◌, arith, Bool, true, false, Option, none, some, Text, lit, ◌==◌, if◌then◌else◌,
}

mutual
  pub data Json : Type 0 where
    undefined null : Json
    bool : Bool → Json
    num : ℕ → Json
    str : Text → Json
    arr : Items → Json
    obj : Fields → Json

  pub data Items : Type 0 where
    nil : Items
    cons : Json → Items → Items

  pub data Fields : Type 0 where
    end : Fields
    field : Text → Json → Fields → Fields

-- `data[k]`
unfoldable pub get : Text → Fields → Option Json
get k end = none
get k (field j v fs) = if j == k then some v else get k fs

abbrev pub text_of : Option Json → Option Text
text_of (some (str t)) = some t
text_of _ = none

-- `data.type`, where it is a string.
unfoldable pub type_of : Fields → Option Text
type_of data' = text_of (get (lit "type") data')

-- `data.type === t`
unfoldable pub is_type : Text → Fields → Bool
is_type t data' = elim (type_of data') [ none ↦ false | some u ↦ u == t ]

-- `{ type: t, ...fields }`
abbrev pub message : Text → Fields → Fields
message t fs = field (lit "type") (str t) fs

-- A value that may be absent.
abbrev pub optional : Option Text → Json
optional none = undefined
optional (some t) = str t

-- A frame has one type.
pub is_type-other :
    (t u : Text) (data' : Fields)
    → is_type t data' ≡ true
    → (t == u) ≡ false
    → is_type u data' ≡ false
unfolding is_type
is_type-other t u data' h k = ground arith
