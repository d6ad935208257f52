-- ===== src/Applier/Terraform/Resources.antt =====
-- ParseStateFileToStateFileResources, Get, and FindPolicyAttachmentsInStateFileByRoleName.
pub mod Owners
use iamzero.Prelude.{
  String, Bool, true, false, ◌||◌, Option, none, some, List, [], ◌∷◌, map, ◌==◌, if◌then◌else◌,
}
use iamzero.Prelude.Words.{join}
use iamzero.Prelude.Assoc.{lookup, insert}
use iamzero.Prelude.Outcome.{Outcome, ok, panic, index_out_of_range, and_then}
use iamzero.Applier.Terraform.{
  StateFile, StateFileResource, StateFileResourceInstance, StateFileResourceRef, StateFileResources,
}

unfoldable pub resource_key : StateFileResource → String
unfolding join
resource_key r = elim r.module_name [
  | none ↦ join "." (r.type_name ∷ r.name ∷ [])
  | some m ↦ join "." (m ∷ r.type_name ∷ r.name ∷ [])
]

put_instance :
    StateFileResource → StateFileResourceInstance → StateFileResources → StateFileResources
unfolding resource_key insert
put_instance r i s =
    let ref : StateFileResourceRef = record { key = resource_key r; state_file_resource = r } in
    if i.arn == ""
    then if i.policy_arn == "" then s else insert i.policy_arn ref s
    else insert i.arn ref s

put_instances :
    StateFileResource → List StateFileResourceInstance → StateFileResources → StateFileResources
unfolding put_instance
put_instances r [] s = s
put_instances r (i ∷ is) s = put_instances r is (put_instance r i s)

put_resources : List StateFileResource → StateFileResources → StateFileResources
unfolding put_instances
put_resources [] s = s
put_resources (r ∷ rs) s = put_resources rs (put_instances r r.instances s)

unfoldable pub parse_state_file_to_state_file_resources : StateFile → StateFileResources
unfolding put_resources
parse_state_file_to_state_file_resources f = put_resources f.resources []

-- A missing key gives the zero value.
unfoldable pub get_resource : StateFileResources → String → StateFileResourceRef
unfolding lookup
get_resource s arn = elim (lookup arn s) [
  | some r ↦ r
  | none ↦ record {
    key = "";
    state_file_resource = record { type_name = ""; name = ""; module_name = none; instances = [] };
  }
]

unfoldable pub slice_contains : List String → String → Bool
slice_contains [] compare_to = false
slice_contains (elem ∷ slice) compare_to = elem == compare_to || slice_contains slice compare_to

-- Reading the first instance of a resource without one panics.
attached_to : String → List StateFileResourceInstance → Outcome Bool
unfolding slice_contains
attached_to name [] = panic index_out_of_range
attached_to name (i ∷ is) = ok (slice_contains i.roles name)

is_attachment_of : String → StateFileResource → Outcome Bool
unfolding attached_to
is_attachment_of name r =
    if r.type_name == "aws_iam_policy_attachment" then attached_to name r.instances else ok false

-- The matches, in a map by their keys.
attachments_in :
    String
    → StateFileResources
    → List (String × StateFileResourceRef)
    → Outcome (List (String × StateFileResourceRef))
unfolding is_attachment_of insert
attachments_in name [] found = ok found
attachments_in name ((arn, r) ∷ s) found =
    and_then (is_attachment_of name r.state_file_resource)
      λ matches. attachments_in name s (if matches then insert r.key r found else found)

last_value : List (String × StateFileResourceRef) → Option StateFileResourceRef
last_value [] = none
last_value ((k, r) ∷ []) = some r
last_value (x ∷ y ∷ m) = last_value (y ∷ m)

-- Every pointer is to the loop's variable, which holds the last value when the loop is over.
pointers :
    Option StateFileResourceRef → List (String × StateFileResourceRef) → List StateFileResourceRef
pointers none m = []
pointers (some r) m = map (λ _. r) m

unfoldable pub find_policy_attachments_in_state_file_by_role_name :
    StateFileResources → String → Outcome (List StateFileResourceRef)
unfolding attachments_in last_value pointers
find_policy_attachments_in_state_file_by_role_name s name =
    and_then (attachments_in name s []) λ matches. ok (pointers (last_value matches) matches)
