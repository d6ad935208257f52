-- ===== src/Recommendations/Advice/Scope.antt =====
-- The variables of the event: Region and Account, written before each template is rendered.
use iamzero.Prelude.{String, ◌≡◌, refl, some, [], ◌∷◌, arith, ◌==◌, eq_iff, if◌then◌else◌, ap}
use iamzero.Prelude.Outcome.{ok}
use iamzero.Recommendations.{Value, str, Vars, AwsEvent}
use iamzero.Recommendations.Template.{lookup, insert}
use iamzero.Recommendations.Advice.{scope_vars, with_parameters}

pub lookup-insert :
    (k j : String) (v : Value) (vars : Vars)
    → lookup j (insert k v vars) ≡ (if k == j then some v else lookup j vars)
unfolding lookup insert
lookup-insert k j v [] = refl
lookup-insert k j v ((i, w) ∷ vars) =
    ground (arith, eq_iff k j, eq_iff i k, eq_iff i j, lookup-insert k j v vars)

-- A write of the value that is there already.
pub insert_same :
    (k : String) (v : Value) (vars : Vars) → lookup k vars ≡ some v → insert k v vars ≡ vars
unfolding lookup insert
insert_same k v [] h = cc
insert_same k v ((j, w) ∷ vars) h = ground (arith, eq_iff j k, insert_same k v vars)

abbrev pub scoped : AwsEvent → Vars → Vars
scoped e vars =
    insert "Account" (str e.identity.account) (insert "Region" (str e.payload.region) vars)

-- The writes are made once for each template, and only the first changes anything.
pub scope_vars_again :
    (e : AwsEvent) (vars : Vars)
    → scope_vars (with_parameters e (scoped e vars)) (some (scoped e vars)) ≡ ok (scoped e vars)
unfolding scope_vars
scope_vars_again e vars = ap ok (rw again_region again_account)
  where
    again_region : insert "Region" (str e.payload.region) (scoped e vars) ≡ scoped e vars
    again_region = insert_same "Region" (str e.payload.region) (scoped e vars) (simp lookup-insert)

    again_account : insert "Account" (str e.identity.account) (scoped e vars) ≡ scoped e vars
    again_account =
        insert_same "Account" (str e.identity.account) (scoped e vars) (simp lookup-insert)
