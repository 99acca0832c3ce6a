-- ===== src/Http/Requests.antt =====
-- Requests, responses, and what becomes of a call.
use token_dance_chat.Base.{
  ℕ, Bool, false, List, [], Option, none, some, Text, if◌then◌else◌, eqb, ◌==◌,
}
use mathlib.Core.Option.{get_or}
use token_dance_chat.Wire.{Json, undefined, Fields, get}

-- A form holds a file, which is named by a number, and texts.
pub data Body : Type 0 where
  no_body : Body
  json_body : Fields → Body
  form_body : ℕ → List (Text × Text) → Body

pub record Request : Type 0 where
  pub path : Text
  pub headers : List (Text × Text)
  pub body : Body
  pub manual_redirect : Bool

pub record Response : Type 0 where
  pub ok : Bool
  pub status : ℕ
  pub content : Option Json

-- What a call is rejected with.
pub data Failure : Type 0 where
  network syntax_error type_error : Failure
  error : Json → Failure
  auth_failed : Json → Failure

pub data Outcome {ℓ} (A : Type ℓ) : Type ℓ where
  done : A → Outcome A
  fails : Failure → Outcome A

infixl 5 ◌>>=◌
abbrev pub ◌>>=◌ {ℓ κ} : {A : Type ℓ} {B : Type κ} → Outcome A → (A → Outcome B) → Outcome B
done a >>= f = f a
fails e >>= f = fails e

-- `await fetch(...)`
unfoldable pub fetched : Option Response → Outcome Response
fetched none = fails network
fetched (some r) = done r

-- `await resp.json()`
unfoldable pub parsed : Option Json → Outcome Json
parsed none = fails syntax_error
parsed (some j) = done j

-- `data.k`, which is an error at null.
unfoldable pub member : Text → Json → Outcome Json
member k Json.undefined = fails type_error
member k Json.null = fails type_error
member k (Json.obj fs) = done (get_or (get k fs) undefined)
member k _ = done undefined

-- `x ?? y`
unfoldable pub or_given : Json → Json → Json
or_given Json.undefined y = y
or_given Json.null y = y
or_given x y = x

-- `x || y`
unfoldable pub or_truthy : Json → Json → Json
or_truthy Json.undefined y = y
or_truthy Json.null y = y
or_truthy (Json.bool false) y = y
or_truthy (Json.num n) y = if eqb n 0 then y else Json.num n
or_truthy (Json.str t) y = if t == [] then y else Json.str t
or_truthy x y = x

-- `try { ... } catch { return other; }`
unfoldable pub caught {ℓ} : {A : Type ℓ} → A → Outcome A → A
caught other (done a) = a
caught other (fails e) = other
