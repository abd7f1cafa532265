-- ===== src/Protocol.antt =====
-- engine/protocol.go and Go's `(value, error)`: the error values, and what they say.
pub mod Messages
use stream_relay.Prelude.{◌≡◌, refl, ◌⊎◌, inl, inr, ◌++◌, Bytes, codes}

-- The error values of the package, and those that the standard library or another part returns,
-- with the text that they carry.
pub data Error : Type 0 where
  bad_request unauthorized permission_denied not_found already_exists internal : Error
  -- `fmt.Errorf("room %s not found", id)` and `fmt.Errorf("room %s already exists", id)`
  room_not_found room_exists : Bytes → Error
  -- `DeliveryPanicError`: the user, and what was recovered.
  delivery_panic : Bytes → Error → Error
  -- Any other error, by its text.
  failure : Bytes → Error

-- Go's `(value, error)`: a value without an error, or an error.
pub data Result {ℓ} (A : Type ℓ) : Type ℓ where
  ok : A → Result A
  err : Error → Result A

pub Result-cases {ℓ} :
    {A : Type ℓ} (r : Result A) → ((a : A) × (r ≡ ok a)) ⊎ ((e : Error) × (r ≡ err e))
Result-cases (ok a) = inl (a, refl)
Result-cases (err e) = inr (e, refl)

-- The method `Error`.
unfoldable pub error_text : Error → Bytes
error_text bad_request = codes "bad request"
error_text unauthorized = codes "unauthorized"
error_text permission_denied = codes "permission denied"
error_text not_found = codes "not found"
error_text already_exists = codes "already exists"
error_text internal = codes "internal error"
error_text (room_not_found id) = codes "room " ++ id ++ codes " not found"
error_text (room_exists id) = codes "room " ++ id ++ codes " already exists"
error_text (delivery_panic user recovered) = codes "panic during delivery to " ++ user
error_text (failure text) = text

-- The chains of `do` blocks on results.
infixl 10 ◌>>=◌
abbrev pub ◌>>=◌ {ℓ κ} : {A : Type ℓ} {B : Type κ} → Result A → (A → Result B) → Result B
ok a >>= f = f a
err e >>= f = err e
