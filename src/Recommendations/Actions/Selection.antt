-- ===== src/Recommendations/Actions/Selection.antt =====
-- SelectAdvisory against GetSelectedAdvisory.
use iamzero.Prelude.{
  String, ◌≡◌, refl, true, false, none, some, List, [], ◌∷◌, arith, eq_iff, ◌⊎◌, inl, inr,
  Option-cases,
}
use iamzero.Prelude.Outcome.{ok, err, plain}
use iamzero.Recommendations.{AwsAction, LeastPrivilegePolicy}
use iamzero.Recommendations.Actions.{
  has_advisory, find_advisory, get_selected_advisory, select_advisory,
}

pub has_advisory-find_advisory :
    (id : String) (rs : List LeastPrivilegePolicy)
    → has_advisory id rs ≡ elim (find_advisory id rs) [ none ↦ false | some r ↦ true ]
unfolding has_advisory find_advisory
has_advisory-find_advisory id [] = refl
has_advisory-find_advisory id (r ∷ rs) = ground (arith, has_advisory-find_advisory id rs)

pub find_advisory_sound :
    (id : String) (rs : List LeastPrivilegePolicy) (r : LeastPrivilegePolicy)
    → find_advisory id rs ≡ some r
    → r.id ≡ id
unfolding find_advisory
find_advisory_sound id [] r h = cc
find_advisory_sound id (q ∷ rs) r h = ground (arith, eq_iff q.id id, find_advisory_sound id rs r)

-- SelectAdvisory accepts exactly the identifiers of the action's advisories; the advisory of that
-- identifier is then the selected one.
select_advisory-get_selected_advisory :
    (id : String) (a : AwsAction)
    → ((r : LeastPrivilegePolicy) × (find_advisory id a.recommendations ≡ some r)
        × (b : AwsAction) × (select_advisory id a ≡ ok b)
        × (get_selected_advisory b ≡ some r)
        × (r.id ≡ id))
      ⊎ ((find_advisory id a.recommendations ≡ none)
          × (select_advisory id a ≡ err (plain "could not find advisory")))
unfolding select_advisory get_selected_advisory
select_advisory-get_selected_advisory id a =
    elim (Option-cases (find_advisory id a.recommendations)) [
      | inl e ↦ inr (e, rw (has_advisory-find_advisory id a.recommendations, e) refl)
      | inr (r, e) ↦ inl (
        r,
        e,
        record a { selected_least_privilege_policy_id = id },
        rw (has_advisory-find_advisory id a.recommendations, e) refl,
        e,
        find_advisory_sound id a.recommendations r e,
      )
    ]
