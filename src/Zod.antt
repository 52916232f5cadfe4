-- ===== src/Zod.antt =====
-- The zod schemas that the code validates with. A schema of the source is a value, a list of checks
-- in the order of the method calls; the package is not part of the repository, so what it answers
-- is an instance argument, and `IsZod` states what the code relies on of its documented behaviour.
pub mod Plain
use scos.Prelude.{ℕ, ◌≡◌, Bool, true, false, ◌&&◌, List, [], ◌∷◌, leb, Text, length, all}
use scos.Js.{Floats, JsValue, number, text, other, whole}

-- The calls behind `z.number()`
pub data NumberCheck (N : Type 0) : Type 0 where
  int : NumberCheck N
  positive : NumberCheck N
  nonnegative : NumberCheck N
  min : N → NumberCheck N
  max : N → NumberCheck N

-- The calls behind `z.string()`
pub data StringCheck : Type 0 where
  min_length : ℕ → StringCheck
  max_length : ℕ → StringCheck
  refine : (Text → Bool) → StringCheck

-- An issue: where, and its code.
pub record Issue : Type 0 where
  pub path : List Text
  pub code : Text

-- `….safeParse(value).error?.issues ?? []`; an object schema gets the issues of its fields, an array
-- schema those of its elements.
pub record Zod (N : Type 0) : Type 0 where
  pub number_issues : List (NumberCheck N) → JsValue N → List Issue
  pub string_issues : List StringCheck → JsValue N → List Issue
  pub object_issues : List (Text × List Issue) → List Issue
  pub array_issues : List (List Issue) → List Issue
  -- a strict object schema, with the keys that it does not know, and a value that is no object
  pub strict_object_issues : List Text → List (Text × List Issue) → List Issue
  pub not_object_issues : List Issue

abbrev pub is_empty {ℓ} : {A : Type ℓ} → List A → Bool
is_empty [] = true
is_empty (x ∷ xs) = false

module _ {N : Type 0} ⦃f : Floats N⦄ where
  abbrev pub number_check : N → NumberCheck N → Bool
  number_check x int = f.is_safe_integer x
  number_check x positive = f.lt (whole 0) x
  number_check x nonnegative = f.le (whole 0) x
  number_check x (min y) = f.le y x
  number_check x (max y) = f.le x y

  -- A number schema takes the finite numbers that pass every check.
  abbrev pub conforms_number : List (NumberCheck N) → JsValue N → Bool
  conforms_number s (number x) = f.is_finite x && all (number_check x) s
  conforms_number s (text t) = false
  conforms_number s other = false

abbrev pub string_check : Text → StringCheck → Bool
string_check t (min_length n) = leb n (length t)
string_check t (max_length n) = leb (length t) n
string_check t (refine p) = p t

abbrev pub conforms_string : {N : Type 0} → List StringCheck → JsValue N → Bool
conforms_string s (text t) = all (string_check t) s
conforms_string s (number x) = false
conforms_string s other = false

-- A parse succeeds exactly on the values that conform.
pub record IsZod (N : Type 0) ⦃f : Floats N⦄ ⦃z : Zod N⦄ : Type 0 where
  pub number_lem :
      (s : List (NumberCheck N)) (v : JsValue N)
      → is_empty (z.number_issues s v) ≡ conforms_number s v
  pub string_lem :
      (s : List StringCheck) (v : JsValue N) → is_empty (z.string_issues s v) ≡ conforms_string s v
  pub object_lem :
      (fields : List (Text × List Issue))
      → is_empty (z.object_issues fields) ≡ all (λ field. is_empty field.1) fields
  pub array_lem :
      (elements : List (List Issue)) → is_empty (z.array_issues elements) ≡ all is_empty elements
  pub strict_object_lem :
      (unknown : List Text) (fields : List (Text × List Issue))
      → is_empty (z.strict_object_issues unknown fields)
        ≡ (is_empty unknown && all (λ field. is_empty field.1) fields)
  pub not_object_lem : is_empty z.not_object_issues ≡ false
