-- ===== src/Applier/Terraform/Resources/Owners.antt =====
-- Which resource the map of a state file holds for an ARN.
use iamzero.Prelude.{
  String, ◌≡◌, refl, ◌∙◌, ◌≢◌, Bool, Option, none, some, List, [], ◌∷◌, arith, ◌==◌, eq_iff, any,
  if◌then◌else◌,
}
use iamzero.Prelude.Assoc.{lookup, lookup-insert}
use iamzero.Applier.Terraform.{
  StateFile, StateFileResource, StateFileResourceInstance, StateFileResourceRef, StateFileResources,
}
use iamzero.Applier.Terraform.Resources.{
  resource_key, put_instance, put_instances, put_resources,
  parse_state_file_to_state_file_resources,
}

-- The ARN of an instance: of a policy attachment, that of its policy.
abbrev pub instance_arn : StateFileResourceInstance → String
instance_arn i = if i.arn == "" then i.policy_arn else i.arn

abbrev pub ref_of : StateFileResource → StateFileResourceRef
ref_of r = record { key = resource_key r; state_file_resource = r }

abbrev pub has_arn : String → StateFileResource → Bool
has_arn arn r = any (λ i. instance_arn i == arn) r.instances

abbrev pub or_else {ℓ} : {A : Type ℓ} → Option A → Option A → Option A
or_else (some a) b = some a
or_else none b = b

or_else-none {ℓ} : {A : Type ℓ} (a : Option A) → or_else a none ≡ a
or_else-none none = refl
or_else-none (some a) = refl

-- The last resource with an instance of that ARN.
abbrev pub last_owner : String → List StateFileResource → Option StateFileResourceRef
last_owner arn [] = none
last_owner arn (r ∷ rs) =
    or_else (last_owner arn rs) (if has_arn arn r then some (ref_of r) else none)

lookup-put_instance :
    (arn : String) (r : StateFileResource) (i : StateFileResourceInstance) (s : StateFileResources)
    → arn ≢ ""
    → lookup arn (put_instance r i s)
      ≡ (if instance_arn i == arn then some (ref_of r) else lookup arn s)
unfolding put_instance
lookup-put_instance arn r i s ne = ground (
  arith,
  eq_iff i.arn "",
  eq_iff i.policy_arn "",
  eq_iff "" arn,
  eq_iff i.policy_arn arn,
  lookup-insert i.policy_arn arn (ref_of r) s,
  lookup-insert i.arn arn (ref_of r) s,
)

lookup-put_instances :
    (arn : String) (r : StateFileResource) (is : List StateFileResourceInstance)
    (s : StateFileResources)
    → arn ≢ ""
    → lookup arn (put_instances r is s)
      ≡ (if any (λ i. instance_arn i == arn) is then some (ref_of r) else lookup arn s)
unfolding put_instances
lookup-put_instances arn r [] s ne = refl
lookup-put_instances arn r (i ∷ is) s ne =
    ground (
      arith,
      lookup-put_instance arn r i s ne,
      lookup-put_instances arn r is (put_instance r i s) ne,
    )

lookup-put_resources :
    (arn : String) (rs : List StateFileResource) (s : StateFileResources)
    → arn ≢ ""
    → lookup arn (put_resources rs s) ≡ or_else (last_owner arn rs) (lookup arn s)
unfolding put_resources
lookup-put_resources arn [] s ne = refl
lookup-put_resources arn (r ∷ rs) s ne = ground (
  arith,
  lookup-put_instances arn r r.instances s ne,
  lookup-put_resources arn rs (put_instances r r.instances s) ne,
)

-- For an ARN that is not empty, the map of a state file holds the last resource with an instance of
-- that ARN (of a policy attachment, the ARN of its policy), with its address as the key, and
-- nothing where no resource has one.
pub get-parse_state_file :
    (f : StateFile) (arn : String)
    → arn ≢ ""
    → lookup arn (parse_state_file_to_state_file_resources f) ≡ last_owner arn f.resources
unfolding parse_state_file_to_state_file_resources lookup
get-parse_state_file f arn ne =
    lookup-put_resources arn f.resources [] ne ∙ or_else-none (last_owner arn f.resources)
