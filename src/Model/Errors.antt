-- ===== src/Model/Errors.antt =====
-- Exceptions, and computations that return or raise (src/ere/models/exceptions.py).
use entity_resolution_engine.Base.{String, Option, ◌≡◌, refl}
use entity_resolution_engine.Base.Dict.{Dict}

-- dict[str, str | None]
abbrev pub Attributes : Type 0
Attributes = Dict String (Option String)

-- `value_error` is `ValueError` and its subclasses (pydantic's `ValidationError` is one), `other`
-- any class that no handler of the program names; both with the class's name and the text.
pub data Exception : Type 0 where
  value_error : String → String → Exception
  conflict_error : String → Attributes → Attributes → Exception
  key_error : String → Exception
  lookup_error : String → Exception
  other : String → String → Exception

pub data Result {ℓ} (A : Type ℓ) : Type ℓ where
  ok : A → Result A
  raise : Exception → Result A

infixl 5 ◌>>=◌ ◌>>◌
abbrev pub ◌>>=◌ {ℓ κ} : {X : Type ℓ} {Y : Type κ} → Result X → (X → Result Y) → Result Y
raise failure >>= next = raise failure
ok value >>= next = next value

abbrev pub ◌>>◌ {ℓ κ} : {X : Type ℓ} {Y : Type κ} → Result X → Result Y → Result Y
first >> next = first >>= λ _. next

-- A chain that returned `y` has got a value from its first part, and `y` from the rest.
module _ {ℓ κ} {X : Type ℓ} {Y : Type κ} where
  pub >>=-eq-ok :
      (first : Result X) (next : X → Result Y) {y : Y}
      → first >>= next ≡ ok y
      → (x : X) × (first ≡ ok x) × (next x ≡ ok y)
  >>=-eq-ok (raise failure) next returned = cc
  >>=-eq-ok (ok value) next returned = (value, refl, returned)

pub ok-injective {ℓ} : {A : Type ℓ} {a b : A} → ok a ≡ ok b → a ≡ b
ok-injective h = cc

-- type(exc).__name__
unfoldable pub type_name : Exception → String
type_name (value_error name text) = name
type_name (conflict_error id existing incoming) = "ConflictError"
type_name (key_error key) = "KeyError"
type_name (lookup_error text) = "LookupError"
type_name (other name text) = name
