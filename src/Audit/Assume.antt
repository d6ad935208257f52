-- ===== src/Audit/Assume.antt =====
-- When one role may assume another, said without the loops of pkg/audit/role.go.
use mathlib.Core.Option.{some-injective}
use iamzero.Prelude.{
  String, ◌≡◌, ◌≢◌, refl, sym, ap, ◌∙◌, Option-cases, and→both, Bool, true, false, ◌&&◌, none, some,
  List, [], ◌∷◌, ◌++◌, arith, ◌==◌, eq_iff, In, All, Bool-cases, ◌⊎◌, inl, inr, ◌↔◌,
}
use iamzero.Prelude.Outcome.{ok}
use iamzero.Policies.{AwsIamStatement, AwsIamPrincipal}
use iamzero.Audit.{
  AwsRole, mentions, statement_allows_target_role_assumption, principal_is,
  trust_policy_statement_allows_source_role_assumption, some_statement_allows, managed_statements,
  inline_statements, has_policy_to_assume_target, some_trust_allows,
  has_trust_relationship_allowing_source_assumption, can_assume,
}

mentions-In : (t : String) (ss : List String) → mentions t ss ≡ true ↔ In t ss
unfolding mentions
mentions-In t [] = (λ h. cc, λ h. elim h [ ])
mentions-In t (s ∷ ss) = (
  λ h. elim (Bool-cases (s == t)) [
    | inl e ↦ inl (sym ((eq_iff s t).0 e))
    | inr e ↦ inr ((mentions-In t ss).0 (ground arith))
  ],
  λ h. elim h [
    | inl e ↦ ground (arith, eq_iff s t)
    | inr i ↦ ground (arith, (mentions-In t ss).1 i)
  ],
)

-- Some statement among these has a property.
abbrev pub Some : (AwsIamStatement → Type 0) → List AwsIamStatement → Type 0
Some P [] = ⊥
Some P (s ∷ ss) = P s ⊎ Some P ss

-- The Effect of the statement does not count, neither here nor below.
abbrev pub ListsTarget : AwsRole → AwsIamStatement → Type 0
ListsTarget target s = In "sts:AssumeRole" s.action × In target.arn s.resource

abbrev pub ListsSource : AwsRole → AwsIamStatement → Type 0
ListsSource source s =
    In "sts:AssumeRole" s.action
    × (p : AwsIamPrincipal) × (s.principal ≡ some p)
    × (p.aws ≡ source.arn)

-- A statement on sts:AssumeRole names a principal.
abbrev pub NamesPrincipal : AwsIamStatement → Type 0
NamesPrincipal s = In "sts:AssumeRole" s.action → s.principal ≢ none

statement_allows-ListsTarget :
    (s : AwsIamStatement) (target : AwsRole)
    → statement_allows_target_role_assumption s target ≡ true ↔ ListsTarget target s
unfolding statement_allows_target_role_assumption
statement_allows-ListsTarget s target =
    let a = mentions-In "sts:AssumeRole" s.action in
    let b = mentions-In target.arn s.resource in
    (λ h. (a.0 (ground arith), b.0 (ground arith)), λ (x, y). ground (arith, a.1 x, b.1 y))

some_statement_allows-Some :
    (ss : List AwsIamStatement) (target : AwsRole)
    → some_statement_allows ss target ≡ true ↔ Some (ListsTarget target) ss
unfolding some_statement_allows
some_statement_allows-Some [] target = (λ h. cc, λ h. elim h [ ])
some_statement_allows-Some (s ∷ ss) target =
    let a = statement_allows-ListsTarget s target in
    let b = some_statement_allows-Some ss target in
    (
      λ h. elim (Bool-cases (statement_allows_target_role_assumption s target)) [
        | inl e ↦ inl (a.0 e)
        | inr e ↦ inr (b.0 (ground arith))
      ],
      λ h. elim h [ inl x ↦ ground (arith, a.1 x) | inr x ↦ ground (arith, b.1 x) ],
    )

trust_statement_lem :
    (s : AwsIamStatement) (source : AwsRole)
    → NamesPrincipal s
    → (b : Bool) × (trust_policy_statement_allows_source_role_assumption s source ≡ ok b)
      × (b ≡ true ↔ ListsSource source s)
unfolding trust_policy_statement_allows_source_role_assumption principal_is
trust_statement_lem s source h =
    let a = mentions-In "sts:AssumeRole" s.action in
    elim (Bool-cases (mentions "sts:AssumeRole" s.action)) [
      | inr e ↦ (false, rw e refl, (λ q. cc, λ t. cc (a.1 t.0)))
      | inl e ↦ elim (Option-cases s.principal) [
        | inl q ↦ absurd (h (a.0 e) q)
        | inr (p, q) ↦ (
          p.aws == source.arn,
          rw (e, q) refl,
          (
            λ r. (a.0 e, p, q, (eq_iff p.aws source.arn).0 r),
            λ (i, p', q', r).
                (eq_iff p.aws source.arn).1
                  (ap (λ x. x.aws) (some-injective p p' (sym q ∙ q')) ∙ r),
          ),
        )
      ]
    ]

some_trust_lem :
    (ss : List AwsIamStatement) (source : AwsRole)
    → All NamesPrincipal ss
    → (b : Bool) × (some_trust_allows ss source ≡ ok b) × (b ≡ true ↔ Some (ListsSource source) ss)
unfolding some_trust_allows
some_trust_lem [] source h = (false, refl, (λ q. cc, λ i. elim i [ ]))
some_trust_lem (s ∷ ss) source h =
    let (b, e, i) = trust_statement_lem s source h.0 in
    let (c, f, j) = some_trust_lem ss source h.1 in
    elim (Bool-cases b) [
      | inl q ↦ (true, rw (e, q) refl, (λ _. inl (i.0 q), λ _. refl))
      | inr q ↦ (
        c,
        rw (e, q, f) refl,
        (λ r. inr (j.0 r), λ r. elim r [ inl t ↦ cc (i.1 t) | inr t ↦ j.1 t ]),
      )
    ]

abbrev pub policy_statements : AwsRole → List AwsIamStatement
policy_statements a = managed_statements a.managed_policies ++ inline_statements a.inline_policies

-- Where each statement of the target's trust policy that lists sts:AssumeRole names a principal,
-- CanAssume does not panic.  It then says yes exactly where some statement of a managed or inline
-- policy of the source lists sts:AssumeRole and the target's ARN, and some statement of the target's
-- trust policy lists sts:AssumeRole and has the source's ARN as its principal: whatever the Effect
-- of these statements is, so that a Deny counts as an Allow does.
pub can_assume_lem :
    (source target : AwsRole)
    → All NamesPrincipal target.trust_policy_document.statement
    → (b : Bool) × (can_assume source target ≡ ok b)
      × (b ≡ true ↔ (
          Some (ListsTarget target) (policy_statements source)
          × Some (ListsSource source) target.trust_policy_document.statement))
unfolding can_assume has_policy_to_assume_target has_trust_relationship_allowing_source_assumption
can_assume_lem source target h =
    let (b, e, i) = some_trust_lem target.trust_policy_document.statement source h in
    let j = some_statement_allows-Some (policy_statements source) target in
    (
      some_statement_allows (policy_statements source) target && b,
      rw e refl,
      (λ q. let (x, y) = and→both _ b q in (j.0 x, i.0 y), λ (x, y). ground (arith, j.1 x, i.1 y)),
    )
