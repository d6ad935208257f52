-- ===== src/Applier/Terraform/Editing/Roles.antt =====
-- What RemovePolicyAttachmentRole writes.
use iamzero.Prelude.{
  String, ◌≡◌, refl, ap, ap₂, ◌∙◌, not, List, [], ◌∷◌, if◌then◌else◌, select, All,
}
use iamzero.Prelude.Text.{◌<>◌, split}
use iamzero.Prelude.Words.{join, trim_cutset, Lacks, split-join}
use iamzero.Applier.Terraform.{StateFileResource}
use iamzero.Applier.Terraform.Editing.{is_role, filtered_roles, without_role}

-- An element of a list as the attribute holds it: without a comma, and without blanks around it.
abbrev pub IsElement : String → Type 0
IsElement r = Lacks b',' r × (trim_cutset " " r ≡ r)

filtered_roles-select :
    (role : StateFileResource) (rs : List String)
    → All IsElement rs
    → filtered_roles role rs ≡ select (λ r. not (is_role role r)) rs
unfolding filtered_roles
filtered_roles-select role [] h = refl
filtered_roles-select role (r ∷ rs) h =
    ap₂ (λ t rest. if not (is_role role t) then t ∷ rest else rest) h.0.1
      (filtered_roles-select role rs h.1)

All-Lacks : (rs : List String) → All IsElement rs → All (Lacks b',') rs
All-Lacks [] h = tt
All-Lacks (r ∷ rs) h = (h.0.0, All-Lacks rs h.1)

pub without_role-join :
    (role : StateFileResource) (r : String) (rs : List String) (line : String)
    → trim_cutset " []" line ≡ join "," (r ∷ rs)
    → All IsElement (r ∷ rs)
    → without_role role line
      ≡ "[" <> (join "," (select (λ x. not (is_role role x)) (r ∷ rs)) <> "]")
unfolding without_role
without_role-join role r rs line t h =
    ap (λ parts. "[" <> (join "," (filtered_roles role parts) <> "]"))
      (ap (split b',') t ∙ split-join b',' "," r rs refl h.0.0 (All-Lacks rs h.1))
    ∙ ap (λ kept. "[" <> (join "," kept <> "]")) (filtered_roles-select role (r ∷ rs) h)
