-- ===== src/Persistence/Failures.antt =====
-- `packages/persistence/src/submission-errors.ts`: what an error of the database, of Prisma or of
-- the pool means for a submission.
pub mod Reasons
pub mod Laws
use scos.Prelude.{
  ℕ, zero, suc, ◌-◌, ◌≡◌, Bool, true, false, not, ◌&&◌, ◌||◌, Option, some, none, List, [], ◌∷◌,
  ◌++◌, leb, length, if◌then◌else◌, Text, codes, text_eq,
}
use scos.Shipping.Allocation.{contains}

-- A JavaScript value, as the metadata of an error holds them.
mutual
  pub data Value : Type 0 where
    string : Text → Value
    numeric : Value
    object : Fields → Value
    array : Items → Value
    undefined : Value

  pub data Fields : Type 0 where
    no_fields : Fields
    field : Text → Value → Fields → Fields

  pub data Items : Type 0 where
    no_items : Items
    item : Value → Items → Items

-- What was thrown: an error that is already typed, a `DatabaseError` of pg, a
-- `PrismaClientKnownRequestError`, another `Error`, or anything else.
pub data Thrown : Type 0 where
  submission_key_taken : Thrown
  transient_submission : Thrown
  pg_error : (message : Text) → (code : Option Text) → (constraint : Option Text) → Thrown
  prisma_error : (code : Text) → (message : Text) → (meta : Value) → Thrown
  plain_error : (message : Text) → Thrown
  not_an_error : Thrown

abbrev pub submission_key_constraint : Text
submission_key_constraint = codes "orders_submission_key_key"

abbrev pub order_number_constraint : Text
order_number_constraint = codes "orders_order_number_key"

abbrev pub transient_sqlstates : List Text
transient_sqlstates = codes "40001" ∷ codes "40P01" ∷ codes "55P03" ∷ codes "57014" ∷ []

abbrev pub prisma_write_conflict : Text
prisma_write_conflict = codes "P2034"

abbrev pub prisma_transaction_api_error : Text
prisma_transaction_api_error = codes "P2028"

abbrev pub transaction_start_timeout_message : Text
transaction_start_timeout_message = codes "Unable to start a transaction in the given time."

abbrev pub pg_connection_timeout_messages : List Text
pg_connection_timeout_messages =
    codes "timeout exceeded when trying to connect"
    ∷ codes "Connection terminated due to connection timeout"
    ∷ []

pub record DatabaseErrorDetails : Type 0 where
  pub sql_state : Text
  pub constraint : Option Text

-- `isRecord`: an array is an object, too.
abbrev pub is_record : Value → Bool
is_record (object fs) = true
is_record (array is) = true
is_record (string t) = false
is_record numeric = false
is_record undefined = false

abbrev pub field_of : Text → Fields → Value
field_of name no_fields = undefined
field_of name (field n v fs) = if text_eq n name then v else field_of name fs

-- `value.name` of an object
abbrev pub get : Text → Value → Value
get name (object fs) = field_of name fs
get name _ = undefined

-- `fields.every((field) => typeof field === "string")`, with the strings
abbrev pub strings_of : Items → Option (List Text)
strings_of no_items = some []
strings_of (item (string t) is) = elim (strings_of is) [ some ts ↦ some (t ∷ ts) | none ↦ none ]
strings_of (item v is) = none

-- `fields.join("_")`
abbrev pub join : List Text → Text
join [] = []
join (t ∷ []) = t
join (t ∷ u ∷ ts) = t ++ codes "_" ++ join (u ∷ ts)

-- `` `${table}_${fields.join("_")}_key` ``
unfoldable pub key_name : Text → List Text → Text
key_name table columns = table ++ codes "_" ++ join columns ++ codes "_key"

abbrev pub name_of_columns : Value → Value → Option Text
name_of_columns (string table) (array (item v is)) = elim (strings_of (item v is)) [
  | some columns ↦ some (key_name table columns)
  | none ↦ none
]
name_of_columns _ _ = none

abbrev pub name_of_index : Value → Value → Value → Option Text
name_of_index (string index) table fields = some index
name_of_index _ table fields = name_of_columns table fields

-- `constraintOf`
unfoldable pub constraint_of : Value → Option Text
unfolding key_name
constraint_of cause =
    let constraint = get (codes "constraint") cause in
    if not (is_record constraint)
    then none
    else name_of_index (get (codes "index") constraint) (get (codes "table") cause)
        (get (codes "fields") constraint)

-- The driver's cause, if there is one.
abbrev pub cause_of : Value → Value
cause_of meta =
    let driver_error = get (codes "driverAdapterError") meta in
    if is_record driver_error then get (codes "cause") driver_error else undefined

abbrev pub details_of_code : Value → Value → Option DatabaseErrorDetails
details_of_code (string code) cause =
    some (record { sql_state = code; constraint = constraint_of cause })
details_of_code _ cause = none

-- `databaseErrorDetails`
unfoldable pub database_error_details : Thrown → Option DatabaseErrorDetails
unfolding constraint_of
database_error_details (pg_error message none constraint) = none
database_error_details (pg_error message (some code) constraint) =
    some (record { sql_state = code; constraint = constraint })
database_error_details (prisma_error code message meta) =
    let cause = cause_of meta in
    if is_record meta && is_record cause
    then details_of_code (get (codes "originalCode") cause) cause
    else none
database_error_details _ = none

abbrev pub drop : ℕ → Text → Text
drop zero t = t
drop (suc n) [] = []
drop (suc n) (c ∷ t) = drop n t

-- `text.endsWith(end)`
unfoldable pub ends_with : Text → Text → Bool
ends_with t end = leb (length end) (length t) && text_eq (drop (length t - length end) t) end

abbrev pub is_string : Value → Text → Bool
is_string (string t) u = text_eq t u
is_string _ u = false

abbrev pub is_numeric : Value → Bool
is_numeric numeric = true
is_numeric _ = false

-- `isUncommittedTransactionTimeout`
unfoldable pub is_uncommitted_transaction_timeout : Text → Text → Value → Bool
unfolding ends_with
is_uncommitted_transaction_timeout code message meta =
    let operation = get (codes "operation") meta in
    let expired =
      (is_string operation (codes "query") || is_string operation (codes "commit"))
      && is_numeric (get (codes "timeout") meta)
      && is_numeric (get (codes "timeTaken") meta) in
    if not (text_eq code prisma_transaction_api_error)
    then false
    else expired || ends_with message transaction_start_timeout_message

-- `isPgConnectionTimeout`
unfoldable pub is_pg_connection_timeout : Thrown → Bool
is_pg_connection_timeout (pg_error message code constraint) =
    contains message pg_connection_timeout_messages
is_pg_connection_timeout (plain_error message) = contains message pg_connection_timeout_messages
is_pg_connection_timeout _ = false

abbrev pub is_constraint : Option Text → Text → Bool
is_constraint (some c) name = text_eq c name
is_constraint none name = false

abbrev pub violates : DatabaseErrorDetails → Text → Bool
violates details name =
    text_eq details.sql_state (codes "23505") && is_constraint details.constraint name

abbrev pub classify_code : Thrown → Thrown
classify_code (prisma_error code message meta) =
    if text_eq code prisma_write_conflict
    then transient_submission
    else if is_uncommitted_transaction_timeout code message meta
    then transient_submission
    else prisma_error code message meta
classify_code e = e

abbrev pub classify_details : Thrown → Option DatabaseErrorDetails → Thrown
classify_details e none = classify_code e
classify_details e (some details) =
    if violates details submission_key_constraint
    then submission_key_taken
    else if violates details order_number_constraint
    then transient_submission
    else if contains details.sql_state transient_sqlstates
    then transient_submission
    else e

abbrev pub is_typed : Thrown → Bool
is_typed submission_key_taken = true
is_typed transient_submission = true
is_typed _ = false

-- `classifySubmissionError`; the new errors keep the original as their cause, which is left out.
unfoldable pub classify_submission_error : Thrown → Thrown
classify_submission_error e =
    if is_typed e
    then e
    else if is_pg_connection_timeout e
    then transient_submission
    else classify_details e (database_error_details e)
