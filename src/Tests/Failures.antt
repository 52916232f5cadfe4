-- ===== src/Tests/Failures.antt =====
-- The classification of database errors at concrete inputs.
use scos.Prelude.{◌≡◌, refl, codes}
use scos.Persistence.Failures.{
  Value, string, object, array, no_fields, field, no_items, item, Thrown, submission_key_taken,
  prisma_error, key_name, constraint_of, database_error_details, is_pg_connection_timeout,
  classify_submission_error,
}

abbrev cause : Value
cause = object (
    field (codes "originalCode") (string (codes "23505")) (
      field (codes "table") (string (codes "orders")) (
        field (codes "constraint")
          (object (
            field (codes "fields") (array (item (string (codes "submission_key")) no_items))
              no_fields))
          no_fields)))

abbrev unique_violation : Thrown
unique_violation = prisma_error (codes "P2002") (codes "Unique constraint failed") (
    object (
      field (codes "driverAdapterError") (object (field (codes "cause") cause no_fields))
        no_fields))

is_taken : classify_submission_error unique_violation ≡ submission_key_taken
unfolding classify_submission_error database_error_details constraint_of key_name
    is_pg_connection_timeout
is_taken = refl
