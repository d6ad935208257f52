-- ===== src/Detective/Recorded.antt =====
-- AnalyseEvent from start to end, over the in-memory storage.
use mathlib.Core.Option.{some-injective}
use iamzero.Prelude.{
  ℕ, suc, String, ◌≡◌, ◌≢◌, refl, sym, true, ◌⊎◌, ap, ◌∙◌, none, some, List, [], ◌∷◌, ◌++◌, arith,
  eq_iff, All, length, Option-cases, inl, inr,
}
use iamzero.Prelude.Outcome.{ok}
use iamzero.Policies.{CdkResource}
use iamzero.Recommendations.{AwsEvent, AwsAction, Finding, LeastPrivilegePolicy}
use iamzero.Recommendations.Advice.{advise}
use iamzero.Recommendations.Findings.{policy_status_active}
use iamzero.Recommendations.Findings.Granted.{IsSelected, granted}
use iamzero.Storage.{FindByRoleQuery}
use iamzero.Storage.Memory.{Memory, in_memory, for_policy, put_finding, find_by_role, get_finding}
use iamzero.Storage.Memory.Lookup.{
  get_finding-put_finding, find_by_role_sound, holds, find_by_role-put_finding,
  find_by_role-put_finding_again,
}
use iamzero.Audit.Resources.{get_physical_id_from_arn_resource, get_by_physical_id}
use iamzero.Runtime.{Env, World, ParsedArn}
use iamzero.Detective.{
  alert_active, new_action, new_finding, record_action, analyse_event, with_real_role,
}
use iamzero.Detective.Calls.{All-append, new_action-IsSelected, record_action-Records}

abbrev pub active_query : String → FindByRoleQuery
active_query role = record { role = role; status = policy_status_active }

-- What an analysis that returned `a` has done.
pub record Analysed (env : Env) (e : AwsEvent) (w : World Memory) (a : AwsAction)
    (w' : World Memory) : Type 0 where
  pub advised : List LeastPrivilegePolicy × AwsEvent
  pub advice : (n n' : ℕ) × (advise env.uuid e n ≡ (ok advised, n'))
  pub records : (a.event ≡ advised.1) × (a.recommendations ≡ advised.0)
  pub counts : (a.enabled ≡ true) × (a.status ≡ alert_active)
  pub added : w'.store.actions ≡ w.store.actions ++ a ∷ []
  pub finding : Finding
  pub kept : get_finding a.finding_id w'.store.findings ≡ some finding
  pub names : finding.id ≡ a.finding_id
  pub found : find_by_role (active_query e.identity.role) w'.store.findings ≡ some finding
  pub keeps :
      (f : Finding)
      → find_by_role (active_query e.identity.role) w.store.findings ≡ some f
      → a.finding_id ≡ f.id
  pub of_role : finding.identity.role ≡ e.identity.role
  pub is_active : finding.status ≡ policy_status_active
  pub counted : finding.event_count ≡ length (for_policy a.finding_id w'.store.actions)
  pub grants : finding.document.statement ≡ granted (for_policy a.finding_id w'.store.actions)
  pub others :
      (j : String)
      → j ≢ a.finding_id
      → get_finding j w'.store.findings ≡ get_finding j w.store.findings
  pub selected : All IsSelected w'.store.actions

new_action_lem :
    (id : String) (now : ℕ) (finding_id : String) (e : AwsEvent)
    (advice : List LeastPrivilegePolicy)
    → (((new_action id now finding_id e advice).event ≡ e)
        × ((new_action id now finding_id e advice).recommendations ≡ advice))
      × (((new_action id now finding_id e advice).enabled ≡ true)
          × ((new_action id now finding_id e advice).status ≡ alert_active))
new_action_lem id now finding_id e [] = ((refl, refl), (refl, refl))
new_action_lem id now finding_id e (r ∷ rs) = ((refl, refl), (refl, refl))

finding_id-new_action :
    (id : String) (now : ℕ) (finding_id : String) (e : AwsEvent)
    (advice : List LeastPrivilegePolicy)
    → (new_action id now finding_id e advice).finding_id ≡ finding_id
finding_id-new_action id now finding_id e [] = refl
finding_id-new_action id now finding_id e (r ∷ rs) = refl

-- The finding at hand is the one that FindByRole returned, if it returned one.
abbrev WasFound : World Memory → String → Finding → Type 0
WasFound w role f =
    (find_by_role (active_query role) w.store.findings ≡ none)
    ⊎ (find_by_role (active_query role) w.store.findings ≡ some f)

holds-active :
    (role : String) (g : Finding)
    → g.identity.role ≡ role
    → g.status ≡ policy_status_active
    → holds (active_query role) g ≡ true
holds-active role g r st =
    ground (arith, eq_iff g.identity.role role, eq_iff g.status policy_status_active)

written-found :
    (w : World Memory) (role : String) (f g : Finding)
    → WasFound w role f
    → g.id ≡ f.id
    → g.identity.role ≡ role
    → g.status ≡ policy_status_active
    → find_by_role (active_query role) (put_finding g w.store.findings) ≡ some g
written-found w role f g was i r st =
    let answers = holds-active role g r st in
    elim was [
      | inl e ↦ find_by_role-put_finding (active_query role) g w.store.findings e answers
      | inr e ↦ find_by_role-put_finding_again (active_query role) f g w.store.findings e i answers
    ]

found-same :
    (w : World Memory) (role : String) (f f' : Finding)
    → WasFound w role f
    → find_by_role (active_query role) w.store.findings ≡ some f'
    → f.id ≡ f'.id
found-same w role f f' was q = elim was [
  | inl e ↦ absurd (cc (e, q))
  | inr e ↦ ap (λ x. x.id) (some-injective f f' (sym e ∙ q))
]

module _ (env : Env) (cdk : List CdkResource) (w : World Memory) (event : AwsEvent) where
  -- With the finding and the advice at hand, and the storage as it was.
  recorded :
      (n t : ℕ) (f : Finding) (advised : List LeastPrivilegePolicy × AwsEvent)
      → (m m' : ℕ) × (advise env.uuid event m ≡ (ok advised, m'))
      → All IsSelected w.store.actions
      → f.identity.role ≡ event.identity.role
      → f.status ≡ policy_status_active
      → WasFound w event.identity.role f
      → (a : AwsAction) × (w' : World Memory) × (record_action env in_memory cdk f advised
            (record w { drawn = n; read = t })
          ≡ (ok a, w'))
        × Analysed env event w a w'
  recorded n t f advised advice all of_role active was =
      let a = new_action (env.uuid n) (env.clock t) f.id advised.1 advised.0 in
      let i = finding_id-new_action (env.uuid n) (env.clock t) f.id advised.1 advised.0 in
      let content = new_action_lem (env.uuid n) (env.clock t) f.id advised.1 advised.0 in
      let (g, e, s, count, id, st, ident) =
        record_action-Records env cdk (record w { drawn = n; read = t }) f advised all in
      (
        a,
        _,
        e,
        record {
          advised = advised;
          advice = advice;
          records = content.0;
          counts = content.1;
          added = refl;
          finding = g;
          kept =
              rw (get_finding-put_finding a.finding_id g w.store.findings)
                (ground (arith, eq_iff g.id a.finding_id));
          names = id ∙ sym i;
          found =
              written-found w event.identity.role f g was id (ap (λ x. x.role) ident ∙ of_role)
                (st ∙ active);
          keeps = λ f' q. i ∙ found-same w event.identity.role f f' was q;
          of_role = ap (λ x. x.role) ident ∙ of_role;
          is_active = st ∙ active;
          counted = rw i count;
          grants = rw i s;
          others = λ j ne.
              rw (get_finding-put_finding j g w.store.findings) (ground (arith, eq_iff g.id j));
          selected =
              All-append IsSelected w.store.actions a all
                (new_action-IsSelected (env.uuid n) (env.clock t) f.id advised.1 advised.0);
        },
      )

module _ (env : Env) (cdk : List CdkResource) (w : World Memory) (event : AwsEvent)
    (arn : ParsedArn) (physical_id : String) where
  -- From a storage where each action that counts has a selected advisory, an event whose role
  -- parses, and on which the advisor succeeds, is analysed: a new action is added at the end, which
  -- is enabled and active and holds the event as the advisor left it, with the advice.  The finding
  -- that it names is an active one of the event's role, with the number of its actions
  -- and exactly the statements of their selected advisories: the one that FindByRole returned
  -- before, if there was one, and the one that it returns afterwards.  Other findings are as they
  -- were, and each action that counts still has a selected advisory.
  pub analyse_event-Analysed :
      env.parse_arn (with_real_role event).identity.role ≡ ok arn
      → get_physical_id_from_arn_resource arn.resource ≡ ok physical_id
      → ((n : ℕ)
          → (advised : List LeastPrivilegePolicy × AwsEvent) × (n' : ℕ) × (advise env.uuid
                (with_real_role event)
                n
              ≡ (ok advised, n')))
      → All IsSelected w.store.actions
      → (a : AwsAction) × (w' : World Memory) × (analyse_event env in_memory cdk event w
          ≡ (ok a, w'))
        × Analysed env (with_real_role event) w a w'
  unfolding analyse_event
  analyse_event-Analysed parsed named advises all =
      elim (Option-cases (find_by_role query w.store.findings)) [
        | inr (f, found) ↦
            let (advised, n, e) = advises w.drawn in
            let (of_role, active) = find_by_role_sound query w.store.findings f found in
            let (a, w', r, done) =
              recorded env cdk w (with_real_role event) n w.read f advised (w.drawn, n, e) all
                of_role active (inr found) in
            (a, w', rw (parsed, named, found, e) r, done)
        | inl missing ↦
            let (advised, n, e) = advises (suc w.drawn) in
            let resource = get_by_physical_id physical_id cdk in
            let f =
              new_finding (env.uuid w.drawn) (env.clock w.read) (with_real_role event) resource in
            let (a, w', r, done) =
              recorded env cdk w (with_real_role event) n (suc w.read) f advised (suc w.drawn, n, e)
                all refl refl (inl missing) in
            (a, w', rw (parsed, named, missing, e) r, done)
      ]
    where
      role : String
      role = (with_real_role event).identity.role

      query : FindByRoleQuery
      query = record { role = role; status = policy_status_active }
