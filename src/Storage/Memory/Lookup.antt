-- ===== src/Storage/Memory/Lookup.antt =====
-- What a read finds after a write.
use iamzero.Prelude.{
  String, ◌≡◌, refl, Bool, true, ◌&&◌, Option, none, some, List, [], ◌∷◌, ◌++◌, arith, ◌==◌, eq_iff,
  eq_refl, if◌then◌else◌, Bool-cases, Option-cases, subst, eq→path, inl, inr, ◌⊎◌, ◌≢◌,
}
use iamzero.Prelude.Outcome.{Outcome, ok, err, plain}
use iamzero.Recommendations.{AwsAction, Finding}
use iamzero.Storage.{FindByRoleQuery}
use iamzero.Storage.Memory.{
  Memory, get_finding, find_by_role, put_finding, get_action, for_policy, change_action, changed,
  set_status, update_action, in_memory_finding_storage, in_memory_action_storage,
}

pub get_finding-put_finding :
    (j : String) (g : Finding) (fs : List Finding)
    → get_finding j (put_finding g fs) ≡ (if g.id == j then some g else get_finding j fs)
unfolding get_finding put_finding
get_finding-put_finding j g [] = refl
get_finding-put_finding j g (f ∷ fs) =
    ground (arith, get_finding-put_finding j g fs, eq_iff g.id j, eq_iff f.id g.id, eq_iff f.id j)

pub get_action-append :
    (j : String) (actions : List AwsAction) (a : AwsAction)
    → get_action j (actions ++ a ∷ [])
      ≡ elim (get_action j actions) [ none ↦ if a.id == j then some a else none | some b ↦ some b ]
unfolding get_action
get_action-append j [] a = refl
get_action-append j (b ∷ bs) a = ground (arith, get_action-append j bs a)

pub for_policy-append :
    (id : String) (actions : List AwsAction) (a : AwsAction)
    → for_policy id (actions ++ a ∷ [])
      ≡ for_policy id actions ++ (if a.finding_id == id then a ∷ [] else [])
unfolding for_policy
for_policy-append id [] a = refl
for_policy-append id (b ∷ bs) a = ground (arith, for_policy-append id bs a)

abbrev map_option : (AwsAction → AwsAction) → Option AwsAction → Option AwsAction
map_option f none = none
map_option f (some a) = some (f a)

-- The actions after a change of one of them, read back; the change keeps identifiers.
pub get_action-change_action :
    (id j : String) (f : AwsAction → AwsAction) (actions : List AwsAction)
    → ((a : AwsAction) → a.id ≡ id → (f a).id ≡ id)
    → (rest : List AwsAction) → change_action id f actions ≡ some rest
    → get_action j rest
      ≡ (if id == j then map_option f (get_action j actions) else get_action j actions)
unfolding get_action change_action
get_action-change_action id j f [] keeps rest h = cc
get_action-change_action id j f (a ∷ as') keeps rest h = elim (Bool-cases (a.id == id)) [
  | inl e ↦
      let e' = (eq_iff a.id id).0 e in
      ground (arith, keeps a e', eq_iff a.id j, eq_iff id j, eq_iff (f a).id j)
  | inr e ↦ elim (Option-cases (change_action id f as')) [
    | inl q ↦ ground arith
    | inr (r, q) ↦ ground (
      arith,
      get_action-change_action id j f as' keeps r q,
      eq_iff a.id j,
      eq_iff id j,
      eq_iff a.id id,
    )
  ]
]

-- A change succeeds exactly where there is an action of that identifier.
pub change_action-none :
    (id : String) (f : AwsAction → AwsAction) (actions : List AwsAction)
    → (get_action id actions ≡ none → change_action id f actions ≡ none)
      × (change_action id f actions ≡ none → get_action id actions ≡ none)
unfolding get_action change_action
change_action-none id f [] = (λ h. refl, λ h. refl)
change_action-none id f (a ∷ as') =
    let ih = change_action-none id f as' in (λ h. ground (arith, ih.0), λ h. ground (arith, ih.1))

-- CreateOrUpdate makes Get of that identifier return the finding, leaves Get of every other
-- identifier as it was, and does not touch the actions.
pub get-create_or_update :
    (g : Finding) (m : Memory) (j : String)
    → let m' = (in_memory_finding_storage.create_or_update g m).1 in
      ((in_memory_finding_storage.create_or_update g m).0 ≡ ok tt)
      × ((in_memory_finding_storage.get j m').0
          ≡ (if g.id == j then ok (some g) else (in_memory_finding_storage.get j m).0))
      × (m'.actions ≡ m.actions)
get-create_or_update g m j = (refl, ground (arith, get_finding-put_finding j g m.findings), refl)

-- What a writer of actions promises: an error and no change where no action has the identifier;
-- otherwise Get of it returns the old action with `f` applied, and the rest is as it was.
abbrev pub Rewrites :
    String → (AwsAction → AwsAction) → Memory → Outcome (Unit {0}) × Memory → Type 0
Rewrites id f m r =
    ((get_action id m.actions ≡ none) × (r ≡ (err (plain "could not find alert"), m)))
    ⊎ ((a : AwsAction) × (get_action id m.actions ≡ some a)
        × (r.0 ≡ ok tt)
        × (get_action id r.1.actions ≡ some (f a))
        × ((j : String) → j ≢ id → get_action j r.1.actions ≡ get_action j m.actions)
        × (r.1.findings ≡ m.findings))

changed-Rewrites :
    (id : String) (f : AwsAction → AwsAction) (m : Memory)
    → ((a : AwsAction) → a.id ≡ id → (f a).id ≡ id)
    → Rewrites id f m (changed (change_action id f m.actions) m)
unfolding changed
changed-Rewrites id f m keeps = elim (Option-cases (change_action id f m.actions)) [
  | inl q ↦ inl ((change_action-none id f m.actions).1 q, rw (q, changed) refl)
  | inr (rest, q) ↦ elim (Option-cases (get_action id m.actions)) [
    | inl e ↦ absurd (cc ((change_action-none id f m.actions).0 e))
    | inr (a, e) ↦
        let reads = λ (j : String). get_action-change_action id j f m.actions keeps rest q in
        inr (
          a,
          e,
          rw (q, changed) refl,
          rw (q, changed) (ground (arith, reads id, eq_refl id)),
          λ j ne. rw (q, changed) (ground (arith, reads j, eq_iff id j)),
          rw (q, changed) refl,
        )
  ]
]

-- Update replaces the action of its identifier, and SetStatus sets the status of one; each fails,
-- and changes nothing, where there is none.
update-set_status-Rewrites :
    (m : Memory)
    → ((a : AwsAction) → Rewrites a.id (λ _. a) m (in_memory_action_storage.update a m))
      × ((id status : String)
          → Rewrites id
              (λ a. record a { status = status })
              m
              (in_memory_action_storage.set_status id status m))
unfolding update_action set_status
update-set_status-Rewrites m = (
  λ a. changed-Rewrites a.id (λ _. a) m (λ b e. refl),
  λ id status. changed-Rewrites id (λ a. record a { status = status }) m (λ b e. e),
)

-- No identifier stands at two findings.
abbrev pub IdsDistinct : List Finding → Type 0
IdsDistinct [] = Unit
IdsDistinct (f ∷ fs) = (get_finding f.id fs ≡ none) × IdsDistinct fs

pub put_finding-IdsDistinct :
    (g : Finding) (fs : List Finding) → IdsDistinct fs → IdsDistinct (put_finding g fs)
unfolding put_finding get_finding
put_finding-IdsDistinct g [] h = (refl, tt)
put_finding-IdsDistinct g (f ∷ fs) h = elim (Bool-cases (f.id == g.id)) [
  | inl e ↦ rw e (subst (λ x. get_finding x fs ≡ none) (eq→path f.id g.id e) h.0, h.1)
  | inr e ↦ rw e (
    ground (arith, get_finding-put_finding f.id g fs, eq_iff g.id f.id, eq_iff f.id g.id),
    put_finding-IdsDistinct g fs h.1,
  )
]

abbrev pub holds : FindByRoleQuery → Finding → Bool
holds q f = f.identity.role == q.role && f.status == q.status

-- FindByRole after a write of a finding that answers the query, where none did.
pub find_by_role-put_finding :
    (q : FindByRoleQuery) (g : Finding) (fs : List Finding)
    → find_by_role q fs ≡ none
    → holds q g ≡ true
    → find_by_role q (put_finding g fs) ≡ some g
unfolding find_by_role put_finding
find_by_role-put_finding q g [] h e = ground arith
find_by_role-put_finding q g (f ∷ fs) h e = ground (arith, find_by_role-put_finding q g fs)

-- A write of the finding that FindByRole returned, or of one of its identifier.
pub find_by_role-put_finding_again :
    (q : FindByRoleQuery) (f g : Finding) (fs : List Finding)
    → find_by_role q fs ≡ some f
    → g.id ≡ f.id
    → holds q g ≡ true
    → find_by_role q (put_finding g fs) ≡ some g
unfolding find_by_role put_finding
find_by_role-put_finding_again q f g [] h i e = cc
find_by_role-put_finding_again q f g (x ∷ fs) h i e =
    ground (arith, eq_iff x.id g.id, find_by_role-put_finding_again q f g fs)

-- What FindByRole returns answers the query.
pub find_by_role_sound :
    (q : FindByRoleQuery) (fs : List Finding) (f : Finding)
    → find_by_role q fs ≡ some f
    → (f.identity.role ≡ q.role) × (f.status ≡ q.status)
unfolding find_by_role
find_by_role_sound q [] f h = cc
find_by_role_sound q (g ∷ fs) f h =
    ground
      (arith, eq_iff g.identity.role q.role, eq_iff g.status q.status, find_by_role_sound q fs f)
