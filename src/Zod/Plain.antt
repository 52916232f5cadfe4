-- ===== src/Zod/Plain.antt =====
-- A plain validator, which meets `IsZod`: one issue for each value that does not conform.
use scos.Prelude.{◌≡◌, refl, Bool, true, false, List, [], ◌∷◌, ◌++◌, ◌&&◌, all, codes, Text}
use scos.Js.{Floats}
use scos.Zod.{Zod, IsZod, Issue, is_empty, conforms_number, conforms_string}

abbrev pub issues_of : Bool → List Issue
issues_of true = []
issues_of false = record { path = []; code = codes "invalid_value" } ∷ []

-- Issues of a field, below its name.
abbrev pub below : Text → List Issue → List Issue
below k [] = []
below k (i ∷ is) = record { path = k ∷ i.path; code = i.code } ∷ below k is

abbrev pub below_fields : List (Text × List Issue) → List Issue
below_fields [] = []
below_fields ((k, is) ∷ fs) = below k is ++ below_fields fs

abbrev pub concat : List (List Issue) → List Issue
concat [] = []
concat (is ∷ rest) = is ++ concat rest

-- One issue for the object as a whole, after those of its fields.
abbrev pub strict : List Text → List (Text × List Issue) → List Issue
strict [] fields = below_fields fields
strict (k ∷ ks) fields =
    record { path = []; code = codes "unrecognized_keys" } ∷ below_fields fields

instance abbrev pub plain_zod : {N : Type 0} ⦃f : Floats N⦄ → Zod N
plain_zod = record {
  number_issues = λ s v. issues_of (conforms_number s v);
  string_issues = λ s v. issues_of (conforms_string s v);
  object_issues = below_fields;
  array_issues = concat;
  strict_object_issues = strict;
  not_object_issues = issues_of false;
}

is_empty-issues_of : (b : Bool) → is_empty (issues_of b) ≡ b
is_empty-issues_of true = refl
is_empty-issues_of false = refl

is_empty-below_fields :
    (fields : List (Text × List Issue))
    → is_empty (below_fields fields) ≡ all (λ field. is_empty field.1) fields
is_empty-below_fields [] = refl
is_empty-below_fields ((k, []) ∷ fs) = is_empty-below_fields fs
is_empty-below_fields ((k, i ∷ is) ∷ fs) = refl

is_empty-strict :
    (unknown : List Text) (fields : List (Text × List Issue))
    → is_empty (strict unknown fields)
      ≡ (is_empty unknown && all (λ field. is_empty field.1) fields)
is_empty-strict [] fields = is_empty-below_fields fields
is_empty-strict (k ∷ ks) fields = refl

is_empty-concat :
    (elements : List (List Issue)) → is_empty (concat elements) ≡ all is_empty elements
is_empty-concat [] = refl
is_empty-concat ([] ∷ rest) = is_empty-concat rest
is_empty-concat ((i ∷ is) ∷ rest) = refl

pub plain-IsZod : {N : Type 0} ⦃f : Floats N⦄ → IsZod N
plain-IsZod = record {
  number_lem = λ s v. is_empty-issues_of (conforms_number s v);
  string_lem = λ s v. is_empty-issues_of (conforms_string s v);
  object_lem = is_empty-below_fields;
  array_lem = is_empty-concat;
  strict_object_lem = is_empty-strict;
  not_object_lem = refl;
}
