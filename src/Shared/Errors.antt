-- ===== src/Shared/Errors.antt =====
-- `packages/core/src/domain/shared/errors.ts`: a call that may throw a DomainError returns a
-- `Result`; the code of the error is kept, its message is not.
use scos.Prelude.{Bool, true, false}

pub data DomainErrorCode : Type 0 where
  invalid_amount : DomainErrorCode
  amount_out_of_range : DomainErrorCode
  invalid_inventory : DomainErrorCode
  invalid_request : DomainErrorCode
  invalid_order : DomainErrorCode

-- `throws code` is a call that ends by throwing.
pub data Result {ℓ} (T : Type ℓ) : Type ℓ where
  throws : DomainErrorCode → Result T
  ok : T → Result T

-- `if (!condition) throw new DomainError(code, …)`
abbrev pub require : Bool → DomainErrorCode → Result (Unit {0})
require false code = throws code
require true code = ok tt

module _ {κ} {T : Type κ} where
  infixl 5 ◌>>=◌ ◌>>◌
  -- The rest of a function body after a call whose value it uses.
  abbrev pub ◌>>=◌ {ℓ} : {S : Type ℓ} → Result S → (S → Result T) → Result T
  throws code >>= rest = throws code
  ok value >>= rest = rest value

  -- The rest after a call that is only made for what it throws.
  abbrev pub ◌>>◌ : Result (Unit {0}) → Result T → Result T
  throws code >> rest = throws code
  ok value >> rest = rest
