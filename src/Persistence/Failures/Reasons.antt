-- ===== src/Persistence/Failures/Reasons.antt =====
-- What the documents of PostgreSQL, pg and Prisma say of an error, independently of the tests in
-- `packages/persistence/src/submission-errors.ts`: the errors after which nothing is committed.
use scos.Prelude.{◌≡◌, ◌⊎◌, some, none, [], ◌∷◌, ◌++◌, Any, Text, codes}
use scos.Persistence.Failures.{
  Value, string, numeric, get, Thrown, submission_key_taken, transient_submission, pg_error,
  prisma_error, plain_error, not_an_error, DatabaseErrorDetails, database_error_details,
}

-- PostgreSQL reported this SQLSTATE.
abbrev pub HasState : Thrown → (Text → Type 0) → Type 0
HasState e P =
    (details : DatabaseErrorDetails) × (database_error_details e ≡ some details)
    × P details.sql_state

-- PostgreSQL reported a unique violation of this constraint.
abbrev pub Violates : Thrown → Text → Type 0
Violates e name =
    (details : DatabaseErrorDetails) × (database_error_details e ≡ some details)
    × (details.sql_state ≡ codes "23505")
    × (details.constraint ≡ some name)

-- A serialization failure, a deadlock, a lock timeout, and a statement timeout or cancel.
abbrev pub RetriedState : Text → Type 0
RetriedState state =
    Any (λ s. s ≡ state) (codes "40001" ∷ codes "40P01" ∷ codes "55P03" ∷ codes "57014" ∷ [])

abbrev pub PoolTimeout : Text → Type 0
PoolTimeout message =
    Any (λ s. s ≡ message)
      (codes "timeout exceeded when trying to connect"
        ∷ codes "Connection terminated due to connection timeout"
        ∷ [])

-- No connection was available in time: nothing was sent.
abbrev pub NoConnection : Thrown → Type 0
NoConnection (pg_error message code constraint) = PoolTimeout message
NoConnection (plain_error message) = PoolTimeout message
NoConnection (prisma_error code message meta) = ⊥
NoConnection submission_key_taken = ⊥
NoConnection transient_submission = ⊥
NoConnection not_an_error = ⊥

-- The transaction outlived its timeout, which Prisma checks before the next query and before COMMIT.
abbrev pub Expired : Value → Type 0
Expired meta =
    ((get (codes "operation") meta ≡ string (codes "query"))
      ⊎ (get (codes "operation") meta ≡ string (codes "commit")))
    × (get (codes "timeout") meta ≡ numeric)
    × (get (codes "timeTaken") meta ≡ numeric)

abbrev pub EndsWith : Text → Text → Type 0
EndsWith t end = (start : Text) × (t ≡ start ++ end)

-- Prisma's write conflict, and the two variants of P2028 that never committed.
abbrev pub PrismaUncommitted : Thrown → Type 0
PrismaUncommitted (prisma_error code message meta) =
    (code ≡ codes "P2034")
    ⊎ (code ≡ codes "P2028")
      × (Expired meta ⊎ EndsWith message (codes "Unable to start a transaction in the given time."))
PrismaUncommitted _ = ⊥

abbrev pub IsKeyTaken : Thrown → Type 0
IsKeyTaken e = Violates e (codes "orders_submission_key_key")

-- After one of these nothing is committed, and a new attempt may succeed.
abbrev pub IsTransient : Thrown → Type 0
IsTransient e =
    NoConnection e
    ⊎ Violates e (codes "orders_order_number_key")
    ⊎ HasState e RetriedState
    ⊎ (database_error_details e ≡ none) × PrismaUncommitted e

-- After one of these nothing is committed.
abbrev pub IsUncommitted : Thrown → Type 0
IsUncommitted e = IsTransient e ⊎ IsKeyTaken e
