-- ===== src/Service/Result.antt =====
-- What a body of the service returns or throws.
use claim_it_all.Prelude.{Bool, true, false, Option, none, some, ◌≡◌, refl, ap}
use mathlib.Core.Path.{subst}

-- The errors of apps/web/src/server/errors.ts: `validation_error` is a 422 and `conflict` a 409.
-- `unique_violation`, `record_not_found` and `invalid_date` are the database client's, for a key that
-- a row has, for a row that `findFirstOrThrow` does not find and for a date that is none.
pub data Error : Type 0 where
  not_found : Error
  unauthenticated : Error
  forbidden : Error
  conflict : Error
  validation_error : Error
  unique_violation : Error
  record_not_found : Error
  invalid_date : Error

pub data Result {ℓ} (Value : Type ℓ) : Type ℓ where
  thrown : Error → Result Value
  ok : Value → Result Value

-- `if (!row) throw error`
abbrev pub or_throw {ℓ} : {Row : Type ℓ} → Option Row → Error → Result Row
or_throw (some row) error = ok row
or_throw none error = thrown error

-- `if (!test) throw error`
abbrev pub guard : Bool → Error → Result (Unit {0})
guard test error = elim test [ true ↦ ok tt | false ↦ thrown error ]

-- `await`, which passes on what was thrown.
infixl 5 ◌>>=◌ ◌>>◌
abbrev pub ◌>>=◌ {ℓ κ} :
    {Row : Type ℓ} {Value : Type κ} → Result Row → (Row → Result Value) → Result Value
thrown error >>= rest = thrown error
ok row >>= rest = rest row

abbrev pub ◌>>◌ {κ} : {Value : Type κ} → Result (Unit {0}) → Result Value → Result Value
tested >> rest = tested >>= (λ _. rest)

-- What a body that returns has come through.
module _ {ℓ κ} {Row : Type ℓ} {Value : Type κ} where
  pub >>=-returns :
      (r : Result Row) (rest : Row → Result Value) {value : Value}
      → (r >>= rest) ≡ ok value
      → (row : Row) × (r ≡ ok row) × (rest row ≡ ok value)
  >>=-returns (thrown error) rest e = cc e
  >>=-returns (ok row) rest e = (row, refl, e)

  pub or_throw-returns :
      (found : Option Row) (error : Error) (rest : Row → Result Value) {value : Value}
      → (or_throw found error >>= rest) ≡ ok value
      → (row : Row) × (found ≡ some row) × (rest row ≡ ok value)
  or_throw-returns (some row) error rest e = (row, refl, e)
  or_throw-returns none error rest e = cc e

pub guard-returns {κ} :
    {Value : Type κ} (test : Bool) (error : Error) (rest : Result Value) {value : Value}
    → (guard test error >> rest) ≡ ok value
    → (test ≡ true) × (rest ≡ ok value)
guard-returns false error rest e = cc e
guard-returns true error rest e = (refl, e)

pub or_throw-ok {ℓ} :
    {Row : Type ℓ} (found : Option Row) (error : Error) (row : Row)
    → or_throw found error ≡ ok row
    → found ≡ some row
or_throw-ok none error row e = cc
or_throw-ok (some x) error row e = cc

pub ok_inj {ℓ} : {Value : Type ℓ} {x y : Value} → ok x ≡ ok y → x ≡ y
ok_inj e = cc

pub holds_of {ℓ} : {Value : Type 0} (P : Value → Type ℓ) {x y : Value} → ok x ≡ ok y → P x → P y
holds_of P e h = subst P (ok_inj e) h

-- What holds of the state that a body leaves.
pub left_by :
    {State A : Type 0} (P : State → Type 0) {x y : A × State} → ok x ≡ ok y → P x.1 → P y.1
left_by P e h = subst P (ap (λ p. p.1) (ok_inj e)) h
