-- ===== src/Storage/Postgres/Empty.antt =====
-- The documents of findings over Postgres, whose statements select no recommendations of actions.
use iamzero.Prelude.{
  String, ◌≡◌, refl, ◌∙◌, subst, Bool, true, false, ◌&&◌, List, [], ◌∷◌, All, length,
}
use iamzero.Prelude.Outcome.{Outcome, ok, err, panic, lift, and_then, wrap_error}
use iamzero.Prelude.Ensures.{Holds, Ensures, Ensures-bind}
use iamzero.Recommendations.{AwsAction, AwsData, Finding, Time}
use iamzero.Recommendations.Actions.{is_active}
use iamzero.Recommendations.Findings.{recalculate_document}
use iamzero.Recommendations.Findings.Granted.{IsSelected, granted, recalculate_document-granted}
use iamzero.Storage.Postgres.{
  PgDb, DbAction, with_event_data, with_events_data, pg_list_for_policy, set_payload,
}

-- sqlx leaves a field that no column is selected for as it was: nil.
abbrev pub WithoutRecommendations : DbAction → Type 0
WithoutRecommendations a = a.aws_action.recommendations ≡ []

abbrev IsBare : AwsAction → Type 0
IsBare a = a.recommendations ≡ []

abbrev OfOk : {A : Type 0} → (A → Type 0) → Outcome A → Type 0
OfOk P (ok a) = P a
OfOk P (err e) = Unit
OfOk P (panic p) = Unit

and-false : (b : Bool) → (b && false) ≡ false
and-false true = refl
and-false false = refl

inactive : (a : AwsAction) → IsBare a → is_active a ≡ false
inactive a h = rw h (and-false a.enabled)

bare-IsSelected : (a : AwsAction) → IsBare a → IsSelected a
bare-IsSelected a h e = cc (inactive a h)

all-IsSelected : (actions : List AwsAction) → All IsBare actions → All IsSelected actions
all-IsSelected [] h = tt
all-IsSelected (a ∷ actions) h = (bare-IsSelected a h.0, all-IsSelected actions h.1)

granted-bare : (actions : List AwsAction) → All IsBare actions → granted actions ≡ []
granted-bare [] h = refl
granted-bare (a ∷ actions) h = rw (inactive a h.0) (granted-bare actions h.1)

payload-IsBare :
    (a : AwsAction) (r : Outcome AwsData)
    → IsBare a
    → OfOk IsBare (and_then r λ payload. ok (set_payload a payload))
unfolding set_payload
payload-IsBare a (ok payload) h = h
payload-IsBare a (err e) h = tt
payload-IsBare a (panic p) h = tt

cons-IsBare :
    (r : Outcome AwsAction) (q : Outcome (List AwsAction))
    → OfOk IsBare r
    → OfOk (All IsBare) q
    → OfOk (All IsBare) (and_then r λ act. and_then q λ acts. ok (act ∷ acts))
cons-IsBare (ok a) (ok actions) h k = (h, k)
cons-IsBare (ok a) (err e) h k = tt
cons-IsBare (ok a) (panic p) h k = tt
cons-IsBare (err e) q h k = tt
cons-IsBare (panic p) q h k = tt

module _ {S : Type 0} (db : PgDb S) (marshal : AwsData → Outcome String)
    (unmarshal : String → Outcome AwsData) where
  row-IsBare :
      (a : DbAction)
      → WithoutRecommendations a
      → OfOk IsBare (with_event_data db marshal unmarshal a)
  unfolding with_event_data
  row-IsBare a h =
      payload-IsBare a.aws_action
        (wrap_error "postgres get action, unmarshalling event data" (unmarshal a.event_data)) h

  rows-IsBare :
      (rows : List DbAction)
      → All WithoutRecommendations rows
      → OfOk (All IsBare) (with_events_data db marshal unmarshal rows)
  unfolding with_events_data
  rows-IsBare [] h = tt
  rows-IsBare (a ∷ rows) h =
      cons-IsBare (with_event_data db marshal unmarshal a)
        (with_events_data db marshal unmarshal rows) (row-IsBare a h.0) (rows-IsBare rows h.1)

  lift-Ensures :
      {A : Type 0} (P : A → Type 0) (r : Outcome A) → OfOk P r → Ensures {S = S} P (lift r)
  lift-Ensures P (ok a) h = record { in_state = λ s. h }
  lift-Ensures P (err e) h = record { in_state = λ s. tt }
  lift-Ensures P (panic p) h = record { in_state = λ s. tt }

  wrap_error-Holds :
      {A : Type 0} (P : A → Type 0) (message : String) (r : Outcome A × S)
      → Holds P r
      → Holds P (wrap_error message r.0, r.1)
  wrap_error-Holds P message (ok a, s) h = h
  wrap_error-Holds P message (err e, s) h = tt
  wrap_error-Holds P message (panic p, s) h = tt

  listed-IsBare :
      (id : String)
      → Ensures (All WithoutRecommendations) (db.select_actions_of id)
      → Ensures (All IsBare) (pg_list_for_policy db marshal unmarshal id)
  unfolding pg_list_for_policy
  listed-IsBare id h =
      Ensures-bind (All WithoutRecommendations) (All IsBare) _ _
        (record {
          in_state = λ s.
              wrap_error-Holds (All WithoutRecommendations) "postgres list actions"
                (db.select_actions_of id s) (h.in_state s);
        })
        λ rows r.
          lift-Ensures (All IsBare) (with_events_data db marshal unmarshal rows)
            (rows-IsBare rows r)

  -- Over a database whose rows of actions have no recommendations, whatever actions ListForPolicy
  -- returns for a finding, RecalculateDocument does not panic, counts them, and leaves the finding
  -- with a document without statements.
  pub recalculate_document-list_for_policy :
      (id : String) (s s' : S) (actions : List AwsAction) (now : Time) (f : Finding)
      → Ensures (All WithoutRecommendations) (db.select_actions_of id)
      → pg_list_for_policy db marshal unmarshal id s ≡ (ok actions, s')
      → (g : Finding) × (recalculate_document now actions f ≡ ok g)
        × (g.document.statement ≡ [])
        × (g.event_count ≡ length actions)
  recalculate_document-list_for_policy id s s' actions now f h e =
      let bare : All IsBare actions =
        subst (Holds (All IsBare)) e ((listed-IsBare id h).in_state s) in
      let (g, r, statements, count, time, id', status, identity) =
        recalculate_document-granted now actions f (all-IsSelected actions bare) in
      (g, r, statements ∙ granted-bare actions bare, count)
