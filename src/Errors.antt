-- ===== src/Errors.antt =====
-- argo_dt/errors.py: the expected failures by class, with the exceptions of Python and of SQLite
-- that the modelled code can raise. A message is not modelled.
use k2s.Prelude.{◌≡◌, refl, Bool, true, false, ◌⊎◌, inl, inr, Option, none, some, List, [], ◌∷◌}

pub data Error : Type 0 where
  invariant_violation concurrency_conflict integrity_error policy_denied : Error
  authorization_denied backpressure_exceeded protocol_violation : Error
  resume_cursor_rejected message_too_large not_found : Error
  key_error type_error value_error attribute_error sqlite_integrity_error : Error

-- Subclasses of `ProtocolViolation`.
abbrev pub is_protocol_violation : Error → Bool
is_protocol_violation protocol_violation = true
is_protocol_violation resume_cursor_rejected = true
is_protocol_violation message_too_large = true
is_protocol_violation _ = false

-- What a call returns or raises.
pub data Result {ℓ} (A : Type ℓ) : Type ℓ where
  ok : A → Result A
  err : Error → Result A

infixl 5 ◌>>=◌ ◌>>◌
abbrev pub ◌>>=◌ {ℓ κ} : {A : Type ℓ} {B : Type κ} → Result A → (A → Result B) → Result B
ok value >>= next = next value
err error >>= next = err error

abbrev pub ◌>>◌ {ℓ} : {B : Type ℓ} → Result (Unit {0}) → Result B → Result B
first >> next = first >>= λ _. next

-- if not test: raise e
abbrev pub ensure : Bool → Error → Result (Unit {0})
ensure true e = ok tt
ensure false e = err e

-- if test: raise e
abbrev pub reject_if : Bool → Error → Result (Unit {0})
reject_if true e = err e
reject_if false e = ok tt

abbrev pub or_raise {ℓ} : {A : Type ℓ} → Option A → Error → Result A
or_raise none e = err e
or_raise (some a) e = ok a

-- [f(x) for x in xs], stopped by the first exception.
unfoldable pub traverse {ℓ κ} :
    {A : Type ℓ} {B : Type κ} → (A → Result B) → List A → Result (List B)
traverse f [] = ok []
traverse f (x ∷ xs) = do y ← f x; ys ← traverse f xs; ok (y ∷ ys)

-- any(f(x) for x in xs), which stops at the first hit.
unfoldable pub any_of {ℓ} : {A : Type ℓ} → (A → Result Bool) → List A → Result Bool
any_of f [] = ok false
any_of f (x ∷ xs) = let rest = any_of f xs in f x >>= λ b. elim b [ true ↦ ok true | false ↦ rest ]

-- for x in xs: f(x)
unfoldable pub for_each {ℓ} : {A : Type ℓ} → (A → Result (Unit {0})) → List A → Result (Unit {0})
for_each f [] = ok tt
for_each f (x ∷ xs) = f x >> for_each f xs

module _ {ℓ κ} {A : Type ℓ} {B : Type κ} where
  pub >>=-eq-ok :
      (first : Result A) (next : A → Result B) {out : B}
      → (first >>= next) ≡ ok out
      → (value : A) × (first ≡ ok value) × (next value ≡ ok out)
  >>=-eq-ok (ok value) next h = (value, refl, h)
  >>=-eq-ok (err error) next h = cc

pub or_raise-eq-ok {ℓ} :
    {A : Type ℓ} (o : Option A) (e : Error) {a : A} → or_raise o e ≡ ok a → o ≡ some a
or_raise-eq-ok none e h = cc
or_raise-eq-ok (some b) e h = cc

module _ {κ} {B : Type κ} where
  pub ensure-eq-ok :
      (t : Bool) (e : Error) (k : Result B) {b : B}
      → (ensure t e >> k) ≡ ok b
      → (t ≡ true) × (k ≡ ok b)
  ensure-eq-ok true e k h = (refl, h)
  ensure-eq-ok false e k h = cc

  pub reject_if-eq-ok :
      (t : Bool) (e : Error) (k : Result B) {b : B}
      → (reject_if t e >> k) ≡ ok b
      → (t ≡ false) × (k ≡ ok b)
  reject_if-eq-ok false e k h = (refl, h)
  reject_if-eq-ok true e k h = cc

  pub skip-eq-ok :
      (m : Result (Unit {0})) (k : Result B) {b : B} → (m >> k) ≡ ok b → (m ≡ ok tt) × (k ≡ ok b)
  skip-eq-ok (ok tt) k h = (refl, h)
  skip-eq-ok (err e) k h = cc

pub Result-cases {ℓ} :
    {A : Type ℓ} (m : Result A) → ((a : A) × (m ≡ ok a)) ⊎ ((e : Error) × (m ≡ err e))
Result-cases (ok a) = inl (a, refl)
Result-cases (err e) = inr (e, refl)
