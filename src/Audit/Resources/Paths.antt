-- ===== src/Audit/Resources/Paths.antt =====
-- What is read off ARN resources and CDK paths, in terms of their segments.
use iamzero.Prelude.{String, ◌≡◌, refl, ap, ap₂, ◌∙◌, List, [], ◌∷◌, ◌++◌}
use iamzero.Prelude.Words.{Lacks, split-Lacks, split-append}
use iamzero.Prelude.Text.{◌<>◌, split, cons-append, nil-append}
use iamzero.Prelude.Outcome.{ok, err, plain, panic, index_out_of_range}
use iamzero.Audit.Resources.{
  second, second_last, get_physical_id_from_arn_resource, parse_id_from_cdk_path,
}

-- A segment of a path.
abbrev pub IsSegment : String → Type 0
IsSegment = Lacks b'/'

split-IsSegment : (s : String) → IsSegment s → split b'/' s ≡ s ∷ []
split-IsSegment s h = split-Lacks b'/' s h

split-slash : (s t : String) → split b'/' (s <> ("/" <> t)) ≡ split b'/' s ++ split b'/' t
split-slash s t =
    ap (λ x. split b'/' (s <> x)) (cons-append "/" "" t ∙ ap (String.◌∷◌ "/") (nil-append t))
    ∙ split-append b'/' "/" s t refl

second_last-append : (xs : List String) (y z : String) → second_last (xs ++ y ∷ z ∷ []) ≡ ok y
unfolding second_last
second_last-append [] y z = refl
second_last-append (x ∷ []) y z = refl
second_last-append (x ∷ w ∷ []) y z = refl
second_last-append (x ∷ w ∷ v ∷ xs) y z = second_last-append (w ∷ v ∷ xs) y z

-- The identifier in a CDK path is its last segment but one, however long the path; a path of two
-- segments gives its first, and a path without a slash panics.
parse_id_from_cdk_path_lem :
    (id last : String)
    → IsSegment id
    → IsSegment last
    → ((path : String) → parse_id_from_cdk_path (path <> ("/" <> (id <> ("/" <> last)))) ≡ ok id)
      × (parse_id_from_cdk_path (id <> ("/" <> last)) ≡ ok id)
      × (parse_id_from_cdk_path id ≡ panic index_out_of_range)
unfolding parse_id_from_cdk_path second_last
parse_id_from_cdk_path_lem id last h k =
    let parts =
      split-slash id last ∙ ap₂ (λ x y. x ++ y) (split-IsSegment id h) (split-IsSegment last k) in
    (
      λ path.
          rw (split-slash path (id <> ("/" <> last)), parts)
            (second_last-append (split b'/' path) id last),
      rw parts refl,
      rw (split-IsSegment id h) refl,
    )

-- The physical identifier is the second segment of the resource: the name, where the resource is
-- a kind and a name; the first part of the path, not the name, where a path stands between them;
-- and a resource of one segment is an error.
get_physical_id_from_arn_resource_lem :
    (kind name : String)
    → IsSegment kind
    → IsSegment name
    → (get_physical_id_from_arn_resource (kind <> ("/" <> name)) ≡ ok name)
      × ((rest : String)
          → get_physical_id_from_arn_resource (kind <> ("/" <> (name <> ("/" <> rest)))) ≡ ok name)
      × (get_physical_id_from_arn_resource kind
          ≡ err (plain ("could not split " <> kind <> " into a Physical ID")))
unfolding get_physical_id_from_arn_resource second
get_physical_id_from_arn_resource_lem kind name h k = (
  rw (split-slash kind name, split-IsSegment kind h, split-IsSegment name k) refl,
  λ rest.
      rw
        (
          split-slash kind (name <> ("/" <> rest)),
          split-slash name rest,
          split-IsSegment kind h,
          split-IsSegment name k,
        )
        refl,
  rw (split-IsSegment kind h) refl,
)
