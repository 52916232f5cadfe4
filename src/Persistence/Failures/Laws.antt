-- ===== src/Persistence/Failures/Laws.antt =====
-- Which errors become a taken key or a transient failure.
use scos.Prelude.{
  ℕ, zero, suc, ◌-◌, ◌+◌, ◌≡◌, ◌⊎◌, refl, sym, ap, ◌∙◌, Bool, true, false, not, false≢true, ◌&&◌,
  ◌||◌, some, none, Option, inl, inr, Bool-cases, Option-cases, if◌then◌else◌, Text, text_eq,
  eq_of_text_eq, text_eq_refl, List, [], ◌∷◌, ◌++◌, Any, codes, length, leb, arith,
}
use scos.Shipping.Allocation.{contains}
use scos.Persistence.Failures.{
  Value, string, numeric, object, array, undefined, get, Thrown, submission_key_taken,
  transient_submission, pg_error, prisma_error, plain_error, not_an_error, DatabaseErrorDetails,
  submission_key_constraint, order_number_constraint, pg_connection_timeout_messages,
  transaction_start_timeout_message, is_typed, transient_sqlstates, prisma_write_conflict,
  database_error_details, is_uncommitted_transaction_timeout, is_pg_connection_timeout, violates,
  classify_code, classify_details, classify_submission_error, is_string, is_numeric, ends_with,
  drop, is_constraint,
}
use scos.Persistence.Failures.Reasons.{
  NoConnection, Expired, EndsWith, PrismaUncommitted, IsKeyTaken, IsTransient,
}

-- A test of a property.
abbrev Decides : Bool → Type 0 → Type 0
Decides b P = (b ≡ true → P) × (P → b ≡ true)

module _ {P Q : Type 0} where
  either-Decides : (b c : Bool) → Decides b P → Decides c Q → Decides (b || c) (P ⊎ Q)
  either-Decides true c (f, g) q = ((λ _. inl (f refl)), λ _. refl)
  either-Decides false c (f, g) (h, k) =
      ((λ e. inr (h e)), λ s. elim s [ inl x ↦ absurd (false≢true (g x)) | inr y ↦ k y ])

  both-Decides : (b c : Bool) → Decides b P → Decides c Q → Decides (b && c) (P × Q)
  both-Decides true c (f, g) (h, k) = ((λ e. (f refl, h e)), λ s. k s.1)
  both-Decides false c (f, g) q = ((λ e. absurd (false≢true e)), λ s. absurd (false≢true (g s.0)))

regrouped : {P Q R : Type 0} {b : Bool} → Decides b ((P × Q) × R) → Decides b (P × Q × R)
regrouped (f, g) = ((λ e. let ((p, q), r) = f e in (p, q, r)), λ (p, q, r). g ((p, q), r))

text_eq-Decides : (s t : Text) → Decides (text_eq s t) (s ≡ t)
text_eq-Decides s t = (eq_of_text_eq s t, λ e. rw e (text_eq_refl t))

contains-Decides : (t : Text) (ts : List Text) → Decides (contains t ts) (Any (λ s. s ≡ t) ts)
contains-Decides t [] = ((λ h. absurd (false≢true h)), λ h. absurd h)
contains-Decides t (s ∷ ts) =
    let rest = contains-Decides t ts in
    elim (Bool-cases (text_eq s t)) [
      | inl same ↦ ((λ _. inl (eq_of_text_eq s t same)), λ _. rw same refl)
      | inr other ↦ (
        (λ h. inr (rest.0 (sym (rw other refl) ∙ h))),
        λ m. rw other (elim m [
          | inl same ↦ absurd (false≢true (sym other ∙ (text_eq-Decides s t).1 same))
          | inr m' ↦ rest.1 m'
        ]),
      )
    ]

is_string-Decides : (v : Value) (t : Text) → Decides (is_string v t) (v ≡ string t)
is_string-Decides v t = (of_test v, λ e. rw e (text_eq_refl t))
  where
    of_test : (v : Value) → is_string v t ≡ true → v ≡ string t
    of_test (string u) h = ap string (eq_of_text_eq u t h)
    of_test numeric h = cc
    of_test (object fs) h = cc
    of_test (array is) h = cc
    of_test undefined h = cc

is_numeric-Decides : (v : Value) → Decides (is_numeric v) (v ≡ numeric)
is_numeric-Decides v = (of_test v, λ e. rw e refl)
  where
    of_test : (v : Value) → is_numeric v ≡ true → v ≡ numeric
    of_test (string u) h = cc
    of_test numeric h = refl
    of_test (object fs) h = cc
    of_test (array is) h = cc
    of_test undefined h = cc

split-drop : (n : ℕ) (t : Text) → (start : Text) × (t ≡ start ++ drop n t)
split-drop zero t = ([], refl)
split-drop (suc n) [] = ([], refl)
split-drop (suc n) (c ∷ t) = let (start, e) = split-drop n t in (c ∷ start, ap (λ u. c ∷ u) e)

drop-length : (start end : Text) → drop (length start) (start ++ end) ≡ end
drop-length [] end = refl
drop-length (c ∷ start) end = drop-length start end

length-append : (s t : Text) → length (s ++ t) ≡ length s + length t
length-append [] t = omega arith
length-append (c ∷ s) t = omega (arith, length-append s t)

ends_with-Decides : (t end : Text) → Decides (ends_with t end) (EndsWith t end)
unfolding ends_with
ends_with-Decides t end = (
  (λ h.
      let (start, e) = split-drop (length t - length end) t in
      let same : drop (length t - length end) t ≡ end = eq_of_text_eq _ _ (ground arith) in
      (start, e ∙ ap (λ u. start ++ u) same)),
  λ (start, e). rw e (
      let left : length (start ++ end) - length end ≡ length start =
        omega (arith, length-append start end) in
      let fits : leb (length end) (length (start ++ end)) ≡ true =
        ground (arith, length-append start end) in
      rw (fits, left, drop-length start end) (text_eq_refl end)),
)

timeout-Decides :
    (code message : Text) (meta : Value)
    → Decides (is_uncommitted_transaction_timeout code message meta) (
        (code ≡ codes "P2028")
        × (Expired meta
            ⊎ EndsWith message (codes "Unable to start a transaction in the given time.")))
unfolding is_uncommitted_transaction_timeout
timeout-Decides code message meta =
    let operation = get (codes "operation") meta in
    let expired = regrouped (
      both-Decides _ _
        (both-Decides _ _
          (either-Decides _ _ (is_string-Decides operation (codes "query"))
            (is_string-Decides operation (codes "commit")))
          (is_numeric-Decides (get (codes "timeout") meta)))
        (is_numeric-Decides (get (codes "timeTaken") meta))) in
    let variant =
      either-Decides _ _ expired (ends_with-Decides message transaction_start_timeout_message) in
    let whole = both-Decides _ _ (text_eq-Decides code (codes "P2028")) variant in
    go (text_eq code (codes "P2028")) _ whole
  where
    go : {P : Type 0} (b c : Bool) → Decides (b && c) P → Decides (if not b then false else c) P
    go true c h = h
    go false c h = h

violates-Decides :
    (details : DatabaseErrorDetails) (name : Text)
    → Decides
        (violates details name)
        ((details.sql_state ≡ codes "23505") × (details.constraint ≡ some name))
violates-Decides details name =
    both-Decides _ _ (text_eq-Decides details.sql_state (codes "23505")) (named details.constraint)
  where
    named : (c : Option Text) → Decides (is_constraint c name) (c ≡ some name)
    named none = ((λ h. absurd (false≢true h)), λ h. cc)
    named (some c) = (
      (λ h. ap some (eq_of_text_eq c name h)),
      λ h. let same : c ≡ name = ground arith in rw same (text_eq_refl name),
    )

NoConnection-Decides : (e : Thrown) → Decides (is_pg_connection_timeout e) (NoConnection e)
unfolding is_pg_connection_timeout
NoConnection-Decides (pg_error message code constraint) =
    contains-Decides message pg_connection_timeout_messages
NoConnection-Decides (plain_error message) = contains-Decides message pg_connection_timeout_messages
NoConnection-Decides (prisma_error code message meta) =
    ((λ h. absurd (false≢true h)), λ h. absurd h)
NoConnection-Decides submission_key_taken = ((λ h. absurd (false≢true h)), λ h. absurd h)
NoConnection-Decides transient_submission = ((λ h. absurd (false≢true h)), λ h. absurd h)
NoConnection-Decides not_an_error = ((λ h. absurd (false≢true h)), λ h. absurd h)

-- What an error is classified as.
pub data Classified (e : Thrown) : Thrown → Type 0 where
  as_taken : ¬ NoConnection e → IsKeyTaken e → Classified e submission_key_taken
  as_transient : IsTransient e → Classified e transient_submission
  unchanged : ¬ IsTransient e → ¬ IsKeyTaken e → Classified e e

-- A test that fails refutes what it decides.
refuted : {P : Type 0} (b : Bool) → Decides b P → b ≡ false → ¬ P
refuted b (f, g) h x = false≢true (sym h ∙ g x)

without_details :
    (e : Thrown)
    → database_error_details e ≡ none
    → ¬ NoConnection e
    → ¬ PrismaUncommitted e
    → ¬ IsTransient e
without_details e h n p (inl c) = n c
without_details e h n p (inr (inl (details, found, _, _))) = cc
without_details e h n p (inr (inr (inl (details, found, _)))) = cc
without_details e h n p (inr (inr (inr (_, u)))) = p u

no_key-without_details : (e : Thrown) → database_error_details e ≡ none → ¬ IsKeyTaken e
no_key-without_details e h (details, found, _, _) = cc

module _ (e : Thrown) (details : DatabaseErrorDetails)
    (h : database_error_details e ≡ some details) where
  same_details :
      (other : DatabaseErrorDetails) → database_error_details e ≡ some other → other ≡ details
  same_details other found = ground (arith, found, h)

  with_details :
      ¬ NoConnection e
      → violates details order_number_constraint ≡ false
      → contains details.sql_state transient_sqlstates ≡ false
      → ¬ IsTransient e
  with_details n v c (inl x) = n x
  with_details n v c (inr (inl (other, found, p, q))) =
      let same = same_details other found in
      refuted _ (violates-Decides details order_number_constraint) v (rw (← same) (p, q))
  with_details n v c (inr (inr (inl (other, found, p)))) =
      let same = same_details other found in
      refuted _ (contains-Decides details.sql_state transient_sqlstates) c (rw (← same) p)
  with_details n v c (inr (inr (inr (empty, _)))) = cc

  no_key-with_details : violates details submission_key_constraint ≡ false → ¬ IsKeyTaken e
  no_key-with_details v (other, found, p, q) =
      let same = same_details other found in
      refuted _ (violates-Decides details submission_key_constraint) v (rw (← same) (p, q))

  classify_details-Classified : ¬ NoConnection e → Classified e (classify_details e (some details))
  classify_details-Classified n = elim (Bool-cases (violates details submission_key_constraint)) [
    | inl taken ↦
        let reason = (violates-Decides details submission_key_constraint).0 taken in
        rw taken (as_taken n (details, h, reason.0, reason.1))
    | inr free ↦ elim (Bool-cases (violates details order_number_constraint)) [
      | inl used ↦
          let reason = (violates-Decides details order_number_constraint).0 used in
          rw (free, used) (as_transient (inr (inl (details, h, reason.0, reason.1))))
      | inr unused ↦ elim (Bool-cases (contains details.sql_state transient_sqlstates)) [
        | inl state ↦
            let reason = (contains-Decides details.sql_state transient_sqlstates).0 state in
            rw (free, unused, state) (as_transient (inr (inr (inl (details, h, reason)))))
        | inr other ↦
            rw (free, unused, other)
              (unchanged (with_details n unused other) (no_key-with_details free))
      ]
    ]
  ]

module _ (e : Thrown) (h : database_error_details e ≡ none) (n : ¬ NoConnection e) where
  kept-Classified : ¬ PrismaUncommitted e → Classified e e
  kept-Classified p = unchanged (without_details e h n p) (no_key-without_details e h)

  uncommitted-Classified : PrismaUncommitted e → Classified e transient_submission
  uncommitted-Classified p = as_transient (inr (inr (inr (h, p))))

classify_code-Classified :
    (e : Thrown)
    → database_error_details e ≡ none
    → ¬ NoConnection e
    → Classified e (classify_code e)
classify_code-Classified submission_key_taken h n = kept-Classified _ h n (λ p. absurd p)
classify_code-Classified transient_submission h n = kept-Classified _ h n (λ p. absurd p)
classify_code-Classified (pg_error m c k) h n = kept-Classified _ h n (λ p. absurd p)
classify_code-Classified (plain_error m) h n = kept-Classified _ h n (λ p. absurd p)
classify_code-Classified not_an_error h n = kept-Classified _ h n (λ p. absurd p)
classify_code-Classified (prisma_error code message meta) h n =
    let conflicts = text_eq-Decides code prisma_write_conflict in
    let timeouts = timeout-Decides code message meta in
    elim (Bool-cases (text_eq code prisma_write_conflict)) [
      | inl same ↦ rw same (uncommitted-Classified _ h n (inl (conflicts.0 same)))
      | inr other ↦ elim (Bool-cases (is_uncommitted_transaction_timeout code message meta)) [
        | inl timeout ↦
            rw (other, timeout) (uncommitted-Classified _ h n (inr (timeouts.0 timeout)))
        | inr kept ↦
            rw (other, kept)
              (kept-Classified _ h n (λ p. elim p [
                | inl same ↦ refuted _ conflicts other same
                | inr timeout ↦ refuted _ timeouts kept timeout
              ]))
      ]
    ]

untyped-Classified :
    (e : Thrown)
    → Classified e (
        if is_pg_connection_timeout e
        then transient_submission
        else classify_details e (database_error_details e))
untyped-Classified e =
    let connects = NoConnection-Decides e in
    elim (Bool-cases (is_pg_connection_timeout e)) [
      | inl timeout ↦ rw timeout (as_transient (inl (connects.0 timeout)))
      | inr connected ↦ elim (Option-cases (database_error_details e)) [
        | inl no_details ↦
            rw (connected, no_details)
              (classify_code-Classified e no_details (refuted _ connects connected))
        | inr (details, h) ↦
            rw (connected, h)
              (classify_details-Classified e details h (refuted _ connects connected))
      ]
    ]

typed-Classified : (e : Thrown) → is_typed e ≡ true → Classified e e
unfolding database_error_details
typed-Classified submission_key_taken h = kept-Classified _ refl (λ p. absurd p) (λ p. absurd p)
typed-Classified transient_submission h = kept-Classified _ refl (λ p. absurd p) (λ p. absurd p)
typed-Classified (pg_error m c k) h = cc
typed-Classified (plain_error m) h = cc
typed-Classified not_an_error h = cc
typed-Classified (prisma_error c m v) h = cc

pub classify_submission_error-Classified : (e : Thrown) → Classified e (classify_submission_error e)
unfolding classify_submission_error
classify_submission_error-Classified e = elim (Bool-cases (is_typed e)) [
  | inl typed ↦ rw typed (typed-Classified e typed)
  | inr untyped ↦ rw untyped (untyped-Classified e)
]
