-- ===== src/Audit/Loading/Roles.antt =====
-- Which roles LoadResources loads.
use mathlib.Core.List.Perm
use mathlib.Core.List.{Perm, append-nil, map-append}
use iamzero.Prelude.{String, ◌≡◌, refl, sym, ap, ◌∙◌, subst, List, [], ◌∷◌, ◌++◌, map}
use iamzero.Prelude.Outcome.{Outcome, ok, err, panic, Exec, and_then}
use iamzero.Policies.{AwsIamPolicy}
use iamzero.Audit.{Auditor, AwsRole, add_role}
use iamzero.Audit.Loading.{
  Outside, IamClient, IamPolicySummary, IamRoleSummary, fetch_policy_details, details_of_role,
  managed_policies_of, inline_policies_of, store_role, store_policy, fetch_details_for_role,
  fetch_policies, fetch_roles, load_account, load_accounts, with_roles, load_resources, policy_of,
}
use iamzero.Audit.Loading.Added.{
  role_arns, AddedTo, Adds, Adds-then, Adds-none, Adds-lift, added_by, run_group-Adds,
}

abbrev pub summary_arns :
    (List IamRoleSummary → List IamRoleSummary) → Outcome (List IamRoleSummary) → List String
summary_arns order (ok rs) = map (λ r. r.arn) (order rs)
summary_arns order (err e) = []
summary_arns order (panic p) = []

-- The roles that the accounts list, those of each account in some order.
abbrev arns_in : Outside → (List IamRoleSummary → List IamRoleSummary) → List String → List String
arns_in outside order [] = []
arns_in outside order (role ∷ roles) =
    summary_arns order ((outside.iam_client role).list_roles) ++ arns_in outside order roles

abbrev pub listed_arns : Outside → List String → List String
listed_arns outside roles = arns_in outside (λ rs. rs) roles

arns_in-Perm :
    (outside : Outside)
    → ((rs : List IamRoleSummary) → Perm (outside.order_of_roles rs) rs)
    → (roles : List String)
    → Perm (arns_in outside outside.order_of_roles roles) (listed_arns outside roles)
arns_in-Perm outside h [] = Perm.rfl
arns_in-Perm outside h (role ∷ roles) =
    Perm.append (summaries ((outside.iam_client role).list_roles)) (arns_in-Perm outside h roles)
  where
    summaries :
        (o : Outcome (List IamRoleSummary))
        → Perm (summary_arns outside.order_of_roles o) (summary_arns (λ rs. rs) o)
    summaries (ok rs) = Perm.map (λ r. r.arn) (h rs)
    summaries (err e) = Perm.rfl
    summaries (panic p) = Perm.rfl

abbrev OkHas : {A : Type 0} → (A → Type 0) → Outcome A → Type 0
OkHas P (ok x) = P x
OkHas P (err e) = Unit
OkHas P (panic p) = Unit

record Returns {A : Type 0} (P : A → Type 0) (r : Outcome A) : Type 0 where
  on_ok : (x : A) → r ≡ ok x → P x

Returns-and_then :
    {A C : Type 0} (P : C → Type 0) (r : Outcome A) (f : A → Outcome C)
    → ((x : A) → Returns P (f x))
    → Returns P (and_then r f)
Returns-and_then P (ok x) f h = h x
Returns-and_then P (err e) f h = record { on_ok = λ x q. cc }
Returns-and_then P (panic p) f h = record { on_ok = λ x q. cc }

Returns-ok : {A : Type 0} (P : A → Type 0) (x : A) → P x → Returns P (ok x)
Returns-ok P x h = record { on_ok = λ y q. subst (OkHas P) q h }

module _ (outside : Outside) where
  abbrev HasArn : String → AwsRole → Type 0
  HasArn arn role = role.arn ≡ arn

  details_of_role-arn :
      (client : IamClient) (policy_map : List (String × AwsIamPolicy)) (r : IamRoleSummary)
      → Returns (HasArn r.arn) (details_of_role outside client policy_map r)
  unfolding details_of_role
  details_of_role-arn client policy_map r =
      Returns-and_then (HasArn r.arn) (outside.parse_arn r.arn) _ λ p.
        Returns-and_then (HasArn r.arn) (outside.query_unescape r.assume_role_policy_document) _
          λ s. Returns-and_then (HasArn r.arn) (outside.unmarshal_trust s) _ λ doc.
            Returns-and_then (HasArn r.arn) (client.list_attached_role_policies r.role_name) _
              λ attached.
                Returns-and_then (HasArn r.arn) (managed_policies_of outside policy_map attached) _
                  λ managed.
                    Returns-and_then (HasArn r.arn) (client.list_role_policies r.role_name) _
                      λ names.
                        Returns-and_then (HasArn r.arn)
                          (inline_policies_of outside client r.role_name names) _
                          λ inline. Returns-ok (HasArn r.arn) _ refl

  store_role-Adds :
      (role : AwsRole) (arn : String) → role.arn ≡ arn → Adds (arn ∷ []) (store_role outside role)
  unfolding store_role add_role
  store_role-Adds role arn e = record {
    in_state =
        λ a. map-append (λ r. r.arn) a.iam_roles (role ∷ []) ∙ ap (λ x. role_arns a ++ x ∷ []) e;
  }

  fetch_details_for_role-Adds :
      (client : IamClient) (r : IamRoleSummary)
      → Adds (r.arn ∷ []) (fetch_details_for_role outside client r)
  unfolding fetch_details_for_role
  fetch_details_for_role-Adds client r = record {
    in_state = λ a.
        (Adds-lift (r.arn ∷ []) (details_of_role outside client a.policy_map r) (store_role outside)
            λ role e.
              store_role-Adds role r.arn
                ((details_of_role-arn client a.policy_map r).on_ok role e)).in_state
          a;
  }

  fetch_roles-Adds :
      (client : IamClient) (rs : List IamRoleSummary)
      → Adds (map (λ r. r.arn) (outside.order_of_roles rs)) (fetch_roles outside client rs)
  unfolding fetch_roles
  fetch_roles-Adds client rs =
      subst (λ arns. Adds arns (fetch_roles outside client rs))
        (one_each (outside.order_of_roles rs))
        (run_group-Adds (λ r. outside.goes_on r.arn) (fetch_details_for_role outside client)
          (λ r. r.arn ∷ []) (fetch_details_for_role-Adds client) (outside.order_of_roles rs))
    where
      one_each : (rs : List IamRoleSummary) → added_by (λ r. r.arn ∷ []) rs ≡ map (λ r. r.arn) rs
      one_each [] = refl
      one_each (r ∷ rs) = ap (λ arns. r.arn ∷ arns) (one_each rs)

  store_policy-Adds : (arn : String) (doc : AwsIamPolicy) → Adds [] (store_policy outside arn doc)
  unfolding store_policy
  store_policy-Adds arn doc = record { in_state = λ a. sym (append-nil (role_arns a)) }

  fetch_policies-Adds :
      (client : IamClient) (ps : List IamPolicySummary) → Adds [] (fetch_policies outside client ps)
  unfolding fetch_policies fetch_policy_details
  fetch_policies-Adds client ps =
      subst (λ arns. Adds arns (fetch_policies outside client ps))
        (none_each (outside.order_of_policies ps))
        (run_group-Adds (λ p. outside.goes_on p.arn) (fetch_policy_details outside client) (λ p. [])
          (λ p.
            Adds-lift [] (policy_of outside (client.get_policy_version p.arn p.default_version_id))
              _ λ doc e. store_policy-Adds p.arn doc)
          (outside.order_of_policies ps))
    where
      none_each : (ps : List IamPolicySummary) → added_by (λ p. []) ps ≡ []
      none_each [] = refl
      none_each (p ∷ ps) = none_each ps

  load_account-Adds :
      (client : IamClient)
      → Adds (summary_arns outside.order_of_roles client.list_roles) (load_account outside client)
  unfolding load_account
  load_account-Adds client =
      Adds-lift (summary_arns outside.order_of_roles client.list_roles) client.list_policies _
        λ policies e.
          Adds-then [] (summary_arns outside.order_of_roles client.list_roles) _ _
            (fetch_policies-Adds client policies)
            (Adds-lift (summary_arns outside.order_of_roles client.list_roles) client.list_roles _
              λ rs q.
                subst
                  (λ l.
                    Adds (summary_arns outside.order_of_roles l) (fetch_roles outside client rs))
                  (sym q) (fetch_roles-Adds client rs))

  load_accounts-Adds :
      (roles : List String)
      → Adds (arns_in outside outside.order_of_roles roles) (load_accounts outside roles)
  unfolding load_accounts
  load_accounts-Adds [] = Adds-none
  load_accounts-Adds (role ∷ roles) =
      Adds-then (summary_arns outside.order_of_roles ((outside.iam_client role).list_roles))
        (arns_in outside outside.order_of_roles roles) _ _
        (load_account-Adds (outside.iam_client role)) (load_accounts-Adds roles)

  with_roles-Adds :
      (arns roles : List String) (load : Exec Auditor (Unit {0}))
      → Adds arns load
      → Adds arns (with_roles outside roles load)
  unfolding with_roles
  with_roles-Adds arns [] load h = record { in_state = λ a. tt }
  with_roles-Adds arns (r ∷ rs) load h =
      Adds-lift arns outside.load_default_config (λ u. load) λ u e. h

  -- Where LoadResources succeeds, in whatever order the goroutines of each group end: the roles of the
  -- auditor are the ones from before, in their order, and behind them one for each role that the
  -- accounts of the audit roles list, each as often as it is listed.
  pub load_resources-listed :
      (a a' : Auditor)
      → ((rs : List IamRoleSummary) → Perm (outside.order_of_roles rs) rs)
      → load_resources outside a ≡ (ok tt, a')
      → (arns : List String) × (role_arns a' ≡ role_arns a ++ arns)
        × Perm arns (listed_arns outside a.audit_roles)
  unfolding load_resources
  load_resources-listed a a' h e =
      let arns = arns_in outside outside.order_of_roles a.audit_roles in
      (
        arns,
        subst (AddedTo (role_arns a) arns) e (
            (with_roles-Adds arns a.audit_roles (load_accounts outside a.audit_roles)
                (load_accounts-Adds a.audit_roles)).in_state
              a),
        arns_in-Perm outside h a.audit_roles,
      )
