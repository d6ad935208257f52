-- ===== src/Console/Actions/Edit.antt =====
-- EditAction from start to end, over the in-memory storage.
use mathlib.Core.Option.{some-injective}
use iamzero.Prelude.{
  suc, String, ◌≡◌, ◌≢◌, refl, sym, ap, ◌∙◌, subst, Bool, true, Option, none, some, List, [], ◌∷◌,
  arith, ◌==◌, eq_iff, eq_refl, All, length, Bool-cases, Option-cases, inl, inr,
}
use iamzero.Prelude.Outcome.{ok, err, panic, plain}
use iamzero.Recommendations.{AwsAction, Finding, LeastPrivilegePolicy}
use iamzero.Recommendations.Actions.{find_advisory, get_selected_advisory, select_advisory}
use iamzero.Recommendations.Actions.Selection.{has_advisory-find_advisory}
use iamzero.Recommendations.Findings.Granted.{IsSelected, granted, recalculate_document-granted}
use iamzero.Storage.Memory.{
  Memory, in_memory, get_action, get_finding, put_finding, for_policy, change_action, changed,
  update_action, list_for_policy,
}
use iamzero.Storage.Memory.Lookup.{get_action-change_action}
use iamzero.Detective.Calls.{All-for_policy}
use iamzero.Runtime.{Env, World}
use iamzero.Http.{RequestBody, respond_json, decode_json_body}
use iamzero.Console.Actions.{
  EditActionBody, with_enabled, with_advisory, store_edited, edit_with_policy, edit_found,
  edit_action,
}

-- Once enabled, the action has a selected advisory if it has any.
abbrev pub IsSelectable : AwsAction → Type 0
IsSelectable a = IsSelected (record a { enabled = true })

IsSelectable-IsSelected : (a : AwsAction) → IsSelectable a → IsSelected a
unfolding get_selected_advisory
IsSelectable-IsSelected a h e = h (ground arith)

All-IsSelected : (actions : List AwsAction) → All IsSelectable actions → All IsSelected actions
All-IsSelected [] h = tt
All-IsSelected (a ∷ as') h = (IsSelectable-IsSelected a h.0, All-IsSelected as' h.1)

with_enabled-keeps :
    (b : Option Bool) (a : AwsAction)
    → IsSelectable a
    → IsSelectable (with_enabled b a) × ((with_enabled b a).id ≡ a.id)
unfolding with_enabled get_selected_advisory
with_enabled-keeps none a h = (h, refl)
with_enabled-keeps (some b) a h = (h, refl)

ok-injective : {A : Type 0} → (x y : A) → ok x ≡ ok y → x ≡ y
ok-injective x y e = ap (λ r. elim r [ ok z ↦ z | err z ↦ x | panic z ↦ x ]) e

select_advisory-keeps :
    (id : String) (a : AwsAction) (r : LeastPrivilegePolicy)
    → find_advisory id a.recommendations ≡ some r
    → let b = record a { selected_least_privilege_policy_id = id } in
      (select_advisory id a ≡ ok b) × IsSelectable b
unfolding select_advisory get_selected_advisory
select_advisory-keeps id a r f =
    (rw (has_advisory-find_advisory id a.recommendations, f) refl, λ e. (r, f))

with_advisory-keeps :
    (o : Option String) (a a' : AwsAction)
    → with_advisory o a ≡ ok a'
    → IsSelectable a
    → IsSelectable a' × (a'.id ≡ a.id)
unfolding with_advisory
with_advisory-keeps none a a' e h =
    subst (λ (x : AwsAction). IsSelectable x × (x.id ≡ a.id)) (ok-injective a a' e) (h, refl)
with_advisory-keeps (some id) a a' e h = elim (Option-cases (find_advisory id a.recommendations)) [
  | inl q ↦ absurd (cc (e, none_selected id a q))
  | inr (r, q) ↦
      let (s, k) = select_advisory-keeps id a r q in
      subst (λ (x : AwsAction). IsSelectable x × (x.id ≡ a.id)) (ok-injective _ a' (sym s ∙ e))
        (k, refl)
]
  where
    none_selected :
        (id : String) (a : AwsAction)
        → find_advisory id a.recommendations ≡ none
        → select_advisory id a ≡ err (plain "could not find advisory")
    none_selected id a q =
        rw (has_advisory-find_advisory id a.recommendations, q) (unfold select_advisory in refl)

change_action-All :
    (P : AwsAction → Type 0) (id : String) (a b : AwsAction) (actions : List AwsAction)
    → P a
    → All P actions
    → get_action id actions ≡ some b
    → (rest : List AwsAction) × (change_action id (λ _. a) actions ≡ some rest) × All P rest
unfolding change_action get_action
change_action-All P id a b [] p h e = absurd (cc e)
change_action-All P id a b (c ∷ cs) p h e = elim (Bool-cases (c.id == id)) [
  | inl q ↦ (a ∷ cs, rw q refl, (p, h.1))
  | inr q ↦
      let (rest, r, all) = change_action-All P id a b cs p h.1 (ground (arith, e)) in
      (c ∷ rest, rw (q, r) refl, (h.0, all))
]

-- What an edit has done: `a` is the edited action, `g` the rebuilt finding.
pub record Edited (w : World Memory) (a : AwsAction) (f g : Finding) (w' : World Memory)
    : Type 0 where
  pub edited : get_action a.id w'.store.actions ≡ some a
  pub others :
      (j : String) → j ≢ a.id → get_action j w'.store.actions ≡ get_action j w.store.actions
  pub findings : w'.store.findings ≡ put_finding g w.store.findings
  pub same : (g.id ≡ f.id) × (g.identity ≡ f.identity) × (g.status ≡ f.status)
  pub counted : g.event_count ≡ length (for_policy f.id w'.store.actions)
  pub grants : g.document.statement ≡ granted (for_policy f.id w'.store.actions)
  pub selectable : All IsSelectable w'.store.actions

store_edited-Edited :
    (env : Env) (w : World Memory) (f : Finding) (a b : AwsAction)
    → IsSelectable a
    → All IsSelectable w.store.actions
    → get_action a.id w.store.actions ≡ some b
    → (g : Finding) × (w' : World Memory) × (store_edited env in_memory f a w
        ≡ (ok (respond_json g 200 ∷ []), w'))
      × Edited w a f g w'
unfolding store_edited update_action changed list_for_policy
store_edited-Edited env w f a b k all found =
    let (rest, q, sound) = change_action-All IsSelectable a.id a b w.store.actions k all found in
    let (g, e, s, n, _, i, st, ident) =
      recalculate_document-granted (env.clock w.read) (for_policy f.id rest) f
        (All-for_policy f.id IsSelected rest (All-IsSelected rest sound)) in
    let reads = λ (j : String).
      get_action-change_action a.id j (λ _. a) w.store.actions (λ x y. refl) rest q in
    (
      g,
      record {
        store = record { findings = put_finding g w.store.findings; actions = rest };
        drawn = w.drawn;
        read = suc w.read;
      },
      rw (q, e) refl,
      record {
        edited = ground (arith, reads a.id, eq_refl a.id, found);
        others = λ j ne. ground (arith, reads j, eq_iff a.id j);
        findings = refl;
        same = (i, ident, st);
        counted = n;
        grants = s;
        selectable = sound;
      },
    )

All-get_action :
    (P : AwsAction → Type 0) (id : String) (actions : List AwsAction) (a : AwsAction)
    → All P actions
    → get_action id actions ≡ some a
    → P a
unfolding get_action
All-get_action P id [] a h e = absurd (cc e)
All-get_action P id (b ∷ bs) a h e = elim (Bool-cases (b.id == id)) [
  | inl q ↦ subst P (some-injective b a (ground (arith, e))) h.0
  | inr q ↦ All-get_action P id bs a h.1 (ground (arith, e))
]

get_action-id :
    (id : String) (actions : List AwsAction) (a : AwsAction)
    → get_action id actions ≡ some a
    → a.id ≡ id
unfolding get_action
get_action-id id [] a e = cc
get_action-id id (b ∷ bs) a e = ground (arith, eq_iff b.id id, get_action-id id bs a)

-- From a storage whose actions have, once enabled, a selected advisory if any: an edit of an
-- action that is there, of a finding that is there, that decodes and selects an advisory of the
-- action or none, writes one answer, 200 with the rebuilt finding.  The action is then stored as
-- edited and the other actions are as they were; the finding has the number of its actions and
-- exactly the statements of their selected advisories, and keeps its identifier, identity and
-- status; and every stored action has, once enabled, a selected advisory if any.
pub edit_action-Edited :
    (env : Env) (w : World Memory) (id : String) (body : RequestBody EditActionBody)
    (b : EditActionBody) (a a' : AwsAction) (f : Finding)
    → decode_json_body body ≡ ok b
    → get_action id w.store.actions ≡ some a
    → get_finding a.finding_id w.store.findings ≡ some f
    → with_advisory b.selected_advisory_id (with_enabled b.enabled a) ≡ ok a'
    → All IsSelectable w.store.actions
    → (g : Finding) × (w' : World Memory) × (edit_action env in_memory id body w
        ≡ (ok (respond_json g 200 ∷ []), w'))
      × Edited w a' f g w'
unfolding edit_action edit_found edit_with_policy
edit_action-Edited env w id body b a a' f decodes there policy selects all =
    let k = All-get_action IsSelectable id w.store.actions a all there in
    let (k', same) = with_enabled-keeps b.enabled a k in
    let (k'', same') =
      with_advisory-keeps b.selected_advisory_id (with_enabled b.enabled a) a' selects k' in
    let found =
      subst (λ j. get_action j w.store.actions ≡ some a)
        (sym (same' ∙ same ∙ get_action-id id w.store.actions a there)) there in
    let (g, w', e, done) = store_edited-Edited env w f a' a k'' all found in
    (g, w', rw (decodes, there, policy, selects) e, done)
