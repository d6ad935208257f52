-- ===== src/Audit/Links.antt =====
-- The links that BuildLinks of pkg/audit/links.go finds, as a list comprehension.
use mathlib.Core.List.{append-nil, append_assoc, map-append}
use iamzero.Prelude.{
  ℕ, suc, ◌+◌, String, ◌≡◌, refl, ap, ap₂, ◌∙◌, Bool, false, List, [], ◌∷◌, ◌++◌, map, arith, ◌==◌,
  if◌then◌else◌, All, Bool-cases, inl, inr, length, length-append,
}
use iamzero.Prelude.Outcome.{Outcome, ok}
use iamzero.Audit.{
  AwsRole, AssumeRoleLink, Auditor, can_assume, link_to, links_from, links_of, build_links,
}

-- Whether CanAssume returned true.
abbrev pub is_yes : Outcome Bool → Bool
is_yes (ok b) = b
is_yes _ = false

abbrev ends : AssumeRoleLink → String × String
ends l = (l.source_arn, l.target_arn)

-- The pairs to link from one role, and from all of some.
abbrev pub pairs_from : AwsRole → List AwsRole → List (String × String)
pairs_from a [] = []
pairs_from a (t ∷ ts) =
    if a.arn == t.arn
    then pairs_from a ts
    else if is_yes (can_assume a t)
    then (a.arn, t.arn) ∷ pairs_from a ts
    else pairs_from a ts

abbrev pub pairs_of : List AwsRole → List AwsRole → List (String × String)
pairs_of [] roles = []
pairs_of (a ∷ rest) roles = pairs_from a roles ++ pairs_of rest roles

abbrev pub Answers : AwsRole → AwsRole → Type 0
Answers a t = (b : Bool) × (can_assume a t ≡ ok b)

-- The links added to those at hand are these pairs, with one identifier drawn for each.
Adds : List AssumeRoleLink → ℕ → List (String × String) → Outcome (List AssumeRoleLink × ℕ) → Type 0
Adds acc n pairs r =
    (ls : List AssumeRoleLink) × (m : ℕ) × (r ≡ ok (acc ++ ls, m))
    × (m ≡ n + length ls)
    × (map ends ls ≡ pairs)

links_from-Adds :
    (uuid : ℕ → String) (a : AwsRole) (ts : List AwsRole) (acc : List AssumeRoleLink) (n : ℕ)
    → All (Answers a) ts
    → Adds acc n (pairs_from a ts) (links_from uuid a ts (acc, n))
unfolding Adds links_from link_to
links_from-Adds uuid a [] acc n h = ([], n, rw append-nil refl, omega arith, refl)
links_from-Adds uuid a (t ∷ ts) acc n ((b, e), h) = elim (Bool-cases (a.arn == t.arn)) [
  | inl q ↦ rw q (links_from-Adds uuid a ts acc n h)
  | inr q ↦ elim (Bool-cases b) [
    | inr x ↦ rw (q, e, x) (links_from-Adds uuid a ts acc n h)
    | inl x ↦
        let l : AssumeRoleLink = record { id = uuid n; source_arn = a.arn; target_arn = t.arn } in
        let (ls, m, r, count, ps) = links_from-Adds uuid a ts (acc ++ l ∷ []) (suc n) h in
        rw (q, e, x)
          (
            l ∷ ls,
            m,
            r ∙ ap (λ k. ok (k, m)) (append_assoc acc (l ∷ []) ls),
            omega (arith, count),
            ap (λ k. (a.arn, t.arn) ∷ k) ps,
          )
  ]
]

links_of-Adds :
    (uuid : ℕ → String) (as' roles : List AwsRole) (acc : List AssumeRoleLink) (n : ℕ)
    → All (λ a. All (Answers a) roles) as'
    → Adds acc n (pairs_of as' roles) (links_of uuid as' roles (acc, n))
unfolding Adds links_of
links_of-Adds uuid [] roles acc n h = ([], n, rw append-nil refl, omega arith, refl)
links_of-Adds uuid (a ∷ as') roles acc n h =
    let (ls, m, r, count, ps) = links_from-Adds uuid a roles acc n h.0 in
    let (ls', m', r', count', ps') = links_of-Adds uuid as' roles (acc ++ ls) m h.1 in
    (
      ls ++ ls',
      m',
      rw r (r' ∙ ap (λ k. ok (k, m')) (append_assoc acc ls ls')),
      omega (arith, count, count', length-append ls ls'),
      map-append ends ls ls' ∙ ap₂ (λ x y. x ++ y) ps ps',
    )

-- Where CanAssume answers for every two of the roles, BuildLinks replaces the links by one for
-- each pair of roles with different ARNs of which the first may assume the second, in the order of
-- the roles, and draws one identifier for each link.  Nothing else of the auditor changes.
pub build_links-pairs_of :
    (uuid : ℕ → String) (n : ℕ) (a : Auditor)
    → All (λ r. All (Answers r) a.iam_roles) a.iam_roles
    → (ls : List AssumeRoleLink) × (m : ℕ) × (build_links uuid n a
        ≡ ok (record a { links = ls }, m))
      × (map (λ l. (l.source_arn, l.target_arn)) ls ≡ pairs_of a.iam_roles a.iam_roles)
      × (m ≡ n + length ls)
unfolding build_links Adds
build_links-pairs_of uuid n a h =
    let (ls, m, r, count, ps) = links_of-Adds uuid a.iam_roles a.iam_roles [] n h in
    (ls, m, rw r refl, ps, count)
