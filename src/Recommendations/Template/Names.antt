-- ===== src/Recommendations/Template/Names.antt =====
-- The friendly name of a resource.
use iamzero.Prelude.{String, ◌≡◌, refl, false, List, [], ◌∷◌, Bool-cases, inl, inr, ap}
use iamzero.Recommendations.{Vars}
use iamzero.Recommendations.Template.{
  Node, lookup, is_scope_var, resource_vals, named_resource, required_template_vars,
  parse_resource_from_template,
}

-- Two sets of variables that agree outside Account and Region.
abbrev pub SameButScope : Vars → Vars → Type 0
SameButScope v w = (k : String) → is_scope_var k ≡ false → lookup k v ≡ lookup k w

resource_vals-same :
    (v w : Vars) (names : List String)
    → SameButScope v w
    → resource_vals v names ≡ resource_vals w names
unfolding resource_vals
resource_vals-same v w [] h = refl
resource_vals-same v w (k ∷ names) h = elim (Bool-cases (is_scope_var k)) [
  | inl e ↦ rw e (resource_vals-same v w names h)
  | inr e ↦ rw e (rw (h k e, resource_vals-same v w names h) refl)
]

-- The name of a resource does not depend on the account or on the region, whatever the template.
pub parse_resource_from_template-same :
    (t : List Node) (v w : Vars)
    → SameButScope v w
    → parse_resource_from_template t v ≡ parse_resource_from_template t w
unfolding parse_resource_from_template
parse_resource_from_template-same t v w h =
    ap named_resource (resource_vals-same v w (required_template_vars t).0 h)
