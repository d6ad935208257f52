-- ===== src/Recommendations/Advice/Grants.antt =====
-- What an advice grants, said without the loops that build it; and that advice is always found.
use iamzero.Prelude.{
  ℕ, suc, String, ◌≡◌, refl, ap₂, Bool, true, false, ◌&&◌, none, some, List, [], ◌∷◌, ◌++◌, map,
  All, and→both, Bool-cases, inl, inr, ◌==◌,
}
use iamzero.Prelude.Text.{◌<>◌}
use iamzero.Prelude.Outcome.{Outcome, ok, err, panic, and_then}
use iamzero.Policies.{AwsIamStatement}
use iamzero.Arn.{get_role_or_user_name_from_arn}
use iamzero.Recommendations.{
  Vars, AwsEvent, CloudResourceInstance, LeastPrivilegePolicy, Statement, AdvisoryTemplate,
}
use iamzero.Recommendations.Template.{Node, parse, execute, parse_resource_from_template}
use iamzero.Recommendations.Template.Total.{are_simple, execute_total}
use iamzero.Recommendations.Table.{alerts_mapping}
use iamzero.Recommendations.Advice.{
  scope_vars, with_parameters, arns, templates_for, new_string, friendly, allow, without_dashes,
  render_resource, render_resources, render_statement, render_statements, advice_of,
  create_advice_from_event, create_advices, advise,
}
use iamzero.Recommendations.Advice.Scope.{scoped, scope_vars_again}

-- The text of a resource: its template executed on the variables.
abbrev pub rendered : Vars → String → Outcome String
rendered vars template = and_then (parse template) (execute vars)

abbrev pub Renders : String → Type 0
Renders t = (ns : List Node) × (parse t ≡ ok ns) × (are_simple ns ≡ true)

-- A statement allows exactly the actions of its template, on exactly the rendered resources.
abbrev pub Allows : Vars → Statement → AwsIamStatement → Type 0
Allows vars t s =
    (s.effect ≡ "Allow")
    × (s.action ≡ t.action)
    × (map ok s.resource ≡ map (rendered vars) t.resource)
    × (s.principal ≡ none)

abbrev pub AllAllow : Vars → List Statement → List AwsIamStatement → Type 0
AllAllow vars [] [] = Unit
AllAllow vars [] (s ∷ ss) = ⊥
AllAllow vars (t ∷ ts) [] = ⊥
AllAllow vars (t ∷ ts) (s ∷ ss) = Allows vars t s × AllAllow vars ts ss

-- An advice that follows its template, for the role of that name.
abbrev pub Follows : Vars → String → AdvisoryTemplate → LeastPrivilegePolicy → Type 0
Follows vars name t p =
    AllAllow vars t.policy p.aws_policy.statement
    × (p.aws_policy.version ≡ "2012-10-17")
    × (p.aws_policy.id ≡ some p.id)
    × (p.comment ≡ t.comment)
    × (p.role_name ≡ name)

abbrev pub AllFollow : Vars → String → List AdvisoryTemplate → List LeastPrivilegePolicy → Type 0
AllFollow vars name [] [] = Unit
AllFollow vars name [] (p ∷ ps) = ⊥
AllFollow vars name (t ∷ ts) [] = ⊥
AllFollow vars name (t ∷ ts) (p ∷ ps) = Follows vars name t p × AllFollow vars name ts ps

abbrev pub StatementRenders : Statement → Type 0
StatementRenders s = All Renders s.resource

abbrev pub TemplateRenders : AdvisoryTemplate → Type 0
TemplateRenders t = All StatementRenders t.policy

module _ (uuid : ℕ → String) (vars : Vars) where
  render_resource_total :
      (t : String) (n : ℕ)
      → Renders t
      → (r : CloudResourceInstance) × (render_resource uuid vars t n ≡ (ok r, suc n))
        × (ok r.arn ≡ rendered vars t)
  unfolding render_resource new_string
  render_resource_total t n (ns, p, simple) =
      let (s, e) = execute_total vars ns simple in
      (
        record { id = uuid n; name = friendly (parse_resource_from_template ns vars); arn = s },
        rw (p, e) refl,
        rw (p, e) refl,
      )

  render_resources_total :
      (ts : List String) (n : ℕ)
      → All Renders ts
      → (rs : List CloudResourceInstance) × (n' : ℕ) × (render_resources uuid vars ts n
          ≡ (ok rs, n'))
        × (map ok (arns rs) ≡ map (rendered vars) ts)
  unfolding render_resources
  render_resources_total [] n h = ([], n, refl, refl)
  render_resources_total (t ∷ ts) n h =
      let (r, e, a) = render_resource_total t n h.0 in
      let (rs, n', es, as') = render_resources_total ts (suc n) h.1 in
      (r ∷ rs, n', rw (e, es) refl, ap₂ ◌∷◌ a as')

  render_statements_total :
      (ss : List Statement) (n : ℕ)
      → All StatementRenders ss
      → (out : List AwsIamStatement × List CloudResourceInstance) × (n' : ℕ) × (render_statements
            uuid vars ss n
          ≡ (ok out, n'))
        × AllAllow vars ss out.0
  unfolding render_statements render_statement new_string
  render_statements_total [] n h = (([], []), n, refl, tt)
  render_statements_total (s ∷ ss) n h =
      let (rs, n', e, a) = render_resources_total s.resource n h.0 in
      let (out, n'', es, as') = render_statements_total ss (suc n') h.1 in
      (
        (allow ("iamzero" <> without_dashes (uuid n')) s.action (arns rs) ∷ out.0, rs ++ out.1),
        n'',
        rw (e, es) refl,
        ((refl, refl, a, refl), as'),
      )

module _ (uuid : ℕ → String) (name : String) (vars : Vars) where
  create_advice_total :
      (e : AwsEvent) (t : AdvisoryTemplate) (n : ℕ)
      → scope_vars e e.payload.parameters ≡ ok vars
      → get_role_or_user_name_from_arn e.identity.role ≡ ok name
      → TemplateRenders t
      → (p : LeastPrivilegePolicy) × (n' : ℕ) × (create_advice_from_event uuid e t n
          ≡ (ok (p, with_parameters e vars), n'))
        × Follows vars name t p
  unfolding create_advice_from_event new_string advice_of
  create_advice_total e t n scope role h =
      let (out, n', r, allows) = render_statements_total uuid vars t.policy n h in
      (
        advice_of uuid (uuid n') t out name,
        suc n',
        rw (scope, r, role) refl,
        (allows, refl, refl, refl, refl),
      )

  create_advices_total :
      (e : AwsEvent) (ts : List AdvisoryTemplate) (n : ℕ)
      → scope_vars e e.payload.parameters ≡ ok vars
      → scope_vars (with_parameters e vars) (some vars) ≡ ok vars
      → get_role_or_user_name_from_arn e.identity.role ≡ ok name
      → All TemplateRenders ts
      → (out : List LeastPrivilegePolicy × AwsEvent) × (n' : ℕ) × (create_advices uuid e ts n
          ≡ (ok out, n'))
        × AllFollow vars name ts out.0
  unfolding create_advices
  create_advices_total e [] n scope again role h = (([], e), n, refl, tt)
  create_advices_total e (t ∷ ts) n scope again role h =
      let (p, n', r, follows) = create_advice_total e t n scope role h.0 in
      let (out, n'', rs, all) =
        create_advices_total (with_parameters e vars) ts n' again again role h.1 in
      ((p ∷ out.0, out.1), n'', rw (r, rs) refl, (follows, all))

-- The table, checked by running the parser on each of its resources.
resource_renders : Outcome (List Node) → Bool
resource_renders (ok ns) = are_simple ns
resource_renders _ = false

all_render : List String → Bool
unfolding resource_renders
all_render [] = true
all_render (t ∷ ts) = resource_renders (parse t) && all_render ts

statements_render : List Statement → Bool
unfolding all_render
statements_render [] = true
statements_render (s ∷ ss) = all_render s.resource && statements_render ss

templates_render : List AdvisoryTemplate → Bool
unfolding statements_render
templates_render [] = true
templates_render (t ∷ ts) = statements_render t.policy && templates_render ts

table_renders : List (String × List AdvisoryTemplate) → Bool
unfolding templates_render
table_renders [] = true
table_renders ((k, ts) ∷ rest) = templates_render ts && table_renders rest

resource_renders-Renders :
    (t : String) (r : Outcome (List Node)) → parse t ≡ r → resource_renders r ≡ true → Renders t
unfolding resource_renders
resource_renders-Renders t (ok ns) e h = (ns, e, h)
resource_renders-Renders t (err x) e h = cc
resource_renders-Renders t (panic x) e h = cc

all_render-Renders : (ts : List String) → all_render ts ≡ true → All Renders ts
unfolding all_render
all_render-Renders [] h = tt
all_render-Renders (t ∷ ts) h =
    let (a, b) = and→both _ _ h in
    (resource_renders-Renders t (parse t) refl a, all_render-Renders ts b)

statements_render-Renders :
    (ss : List Statement) → statements_render ss ≡ true → All StatementRenders ss
unfolding statements_render
statements_render-Renders [] h = tt
statements_render-Renders (s ∷ ss) h =
    let (a, b) = and→both _ _ h in (all_render-Renders s.resource a, statements_render-Renders ss b)

templates_render-Renders :
    (ts : List AdvisoryTemplate) → templates_render ts ≡ true → All TemplateRenders ts
unfolding templates_render
templates_render-Renders [] h = tt
templates_render-Renders (t ∷ ts) h =
    let (a, b) = and→both _ _ h in
    (statements_render-Renders t.policy a, templates_render-Renders ts b)

templates_for-Renders :
    (key : String) (table : List (String × List AdvisoryTemplate))
    → table_renders table ≡ true
    → All TemplateRenders (templates_for key table)
unfolding table_renders
templates_for-Renders key [] h = tt
templates_for-Renders key ((k, ts) ∷ rest) h =
    let (a, b) = and→both _ _ h in
    elim (Bool-cases (k == key)) [
      | inl e ↦ rw e (templates_render-Renders ts a)
      | inr e ↦ rw e (templates_for-Renders key rest b)
    ]

alerts_mapping_renders : table_renders alerts_mapping ≡ true
unfolding table_renders alerts_mapping parse
alerts_mapping_renders = refl

-- The templates of the event's service and operation.
abbrev pub templates_of : AwsEvent → List AdvisoryTemplate
templates_of e = templates_for (e.payload.service <> ":" <> e.payload.operation) alerts_mapping

-- For an event with parameters, of a role whose name can be read, advice is always found: one for
-- each template of the service and operation, in order.  Each allows, statement by statement,
-- exactly the actions of its template on exactly the resources that the template renders with the
-- event's parameters, Region and Account, and is for the role of that name.
pub advise-AllFollow :
    (uuid : ℕ → String) (e : AwsEvent) (m : Vars) (name : String) (n : ℕ)
    → e.payload.parameters ≡ some m
    → get_role_or_user_name_from_arn e.identity.role ≡ ok name
    → (out : List LeastPrivilegePolicy × AwsEvent) × (n' : ℕ) × (advise uuid e n ≡ (ok out, n'))
      × AllFollow (scoped e m) name (templates_of e) out.0
unfolding advise
advise-AllFollow uuid e m name n params role =
    create_advices_total uuid name (scoped e m) e (templates_of e) n
      (rw params (unfold scope_vars in refl)) (scope_vars_again e m) role
      (templates_for-Renders (e.payload.service <> ":" <> e.payload.operation) alerts_mapping
        alerts_mapping_renders)
