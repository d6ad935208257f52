-- ===== src/Detective/OverPostgres.antt =====
-- AnalyseEvent over Postgres, for a role that has no finding yet.
use iamzero.Prelude.{String, ◌≡◌, ◌≢◌, refl, sym, subst, ap, some, List}
use iamzero.Prelude.Outcome.{Outcome, ok, err, panic, Error, Exec, after_call, pure}
use iamzero.Policies.{CdkResource}
use iamzero.Recommendations.{AwsEvent, AwsData}
use iamzero.Recommendations.Findings.{policy_status_active}
use iamzero.Storage.Postgres.{PgDb, postgres, pg_find_by_role}
use iamzero.Storage.{FindByRoleQuery}
use iamzero.Audit.Resources.{get_physical_id_from_arn_resource}
use iamzero.Runtime.{Env, World, stored, in_store}
use iamzero.Detective.{analyse_event, with_real_role}

abbrev active_query : AwsEvent → FindByRoleQuery
active_query event = record {
  role = (with_real_role event).identity.role;
  status = policy_status_active;
}

-- No value, and the storage that there was.
pub record Rejected {S A : Type 0} (s : S) (r : Outcome A × World S) : Type 0 where
  pub no_value : (a : A) → r.0 ≢ ok a
  pub same_store : r.1.store ≡ s

err-Rejected : {S A : Type 0} (e : Error) (w : World S) → Rejected {A = A} w.store (err e, w)
err-Rejected e w = record { no_value = λ a h. cc; same_store = refl }

lift-Rejected :
    {S A C : Type 0} (r : Outcome A) (f : A → Exec (World S) C) (w : World S)
    → ((a : A) → Rejected w.store (f a w))
    → Rejected w.store (after_call (r, w) f)
lift-Rejected (ok a) f w h = h a
lift-Rejected (err e) f w h = err-Rejected e w
lift-Rejected (panic p) f w h = record { no_value = λ a q. cc; same_store = refl }

failed-Rejected :
    {S A C : Type 0} (r : Outcome A × World S) (e : Error) (w : World S) (f : A → Exec (World S) C)
    → r ≡ (err e, w)
    → Rejected w.store (after_call r f)
failed-Rejected r e w f h =
    subst (λ q. Rejected w.store (after_call q f)) (sym h) (err-Rejected e w)

module _ {S : Type 0} (env : Env) (db : PgDb S) (marshal : AwsData → Outcome String)
    (unmarshal : String → Outcome AwsData) (cdk : List CdkResource) where
  find_by_role-fails :
      (event : AwsEvent) (e : Error) (w : World S)
      → db.get_finding_of_role (with_real_role event).identity.role policy_status_active w.store
        ≡ (err e, w.store)
      → stored (pg_find_by_role db marshal unmarshal (active_query event)) w ≡ (err e, w)
  unfolding pg_find_by_role
  find_by_role-fails event e w h = ap (λ r. in_store (after_call r (λ f. pure (some f))) w) h

  -- Over Postgres, where the query for an active finding of the event's role fails and changes
  -- nothing, as it does where no row is found, an event is never analysed: no action is returned,
  -- and the storage is as it was.
  pub analyse_event-Rejected :
      (event : AwsEvent) (e : Error) (w : World S)
      → db.get_finding_of_role (with_real_role event).identity.role policy_status_active w.store
        ≡ (err e, w.store)
      → Rejected w.store (analyse_event env (postgres db marshal unmarshal) cdk event w)
  unfolding analyse_event postgres pg_find_by_role
  analyse_event-Rejected event e w h =
      lift-Rejected (env.parse_arn (with_real_role event).identity.role) _ w λ arn.
        lift-Rejected (get_physical_id_from_arn_resource arn.resource) _ w
          λ id. failed-Rejected _ e w _ (find_by_role-fails event e w h)
