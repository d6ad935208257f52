-- ===== src/Storage/Bolt/Contract.antt =====
-- What the storage on Bolt promises, where storm does what it documents.
use iamzero.Prelude.{String, ◌≡◌, ◌≢◌, refl, sym, ap, ap₂, ◌∙◌, some}
use iamzero.Prelude.Outcome.{Outcome, ok, err, wrap, wrap_error, Error}
use iamzero.Recommendations.{AwsAction, Finding}
use iamzero.Storage.Bolt.{Bucket, Db, bolt_get_finding, bolt_get_action, bolt_set_status, found}

-- storm's documentation: Save overwrites the record of that ID, and One finds the record of an ID.
pub record IsBucket {S A : Type 0} (id_of : A → String) (b : Bucket S A) : Type 0 where
  pub one_reads : (id : String) (s : S) → (b.one id s).1 ≡ s
  pub one_id : (id : String) (s : S) (a : A) → (b.one id s).0 ≡ ok a → id_of a ≡ id
  pub one_save :
      (a : A) (s : S) → (b.save a s).0 ≡ ok tt → (b.one (id_of a) (b.save a s).1).0 ≡ ok a
  pub one_save_other :
      (a : A) (s : S) (id : String) → id ≢ id_of a → (b.one id (b.save a s).1).0 ≡ (b.one id s).0

pub bolt_get_finding-fails :
    {S : Type 0}
    → (db : Db S) (id : String) (s s' : S) (e : Error) → db.findings.one id s ≡ (err e, s')
    → bolt_get_finding db id s ≡ (err (wrap "boltdb get finding" e), s')
unfolding bolt_get_finding found
bolt_get_finding-fails db id s s' e h = rw h refl

module _ {S : Type 0} (db : Db S) (findings : IsBucket (λ (f : Finding). f.id) db.findings)
    (actions : IsBucket (λ (a : AwsAction). a.id) db.actions) where
  -- Over a database that does what storm documents: where Save succeeds, Get of the finding's identifier returns it, and Get of any other
  -- identifier is as it was.
  pub bolt_get_finding-save :
      (f : Finding) (s : S)
      → (db.findings.save f s).0 ≡ ok tt
      → ((bolt_get_finding db f.id (db.findings.save f s).1).0 ≡ ok (some f))
        × ((j : String)
            → j ≢ f.id
            → (bolt_get_finding db j (db.findings.save f s).1).0 ≡ (bolt_get_finding db j s).0)
  unfolding bolt_get_finding found
  bolt_get_finding-save f s saved = (
    ap (λ r. found (wrap_error "boltdb get finding" r)) (findings.one_save f s saved),
    λ j ne. ap (λ r. found (wrap_error "boltdb get finding" r)) (findings.one_save_other f s j ne),
  )

  set_status-found :
      (id status : String) (s s' : S) (a : AwsAction)
      → db.actions.one id s ≡ (ok a, s')
      → bolt_set_status db id status s ≡ db.actions.save (record a { status = status }) s'
  unfolding bolt_set_status
  set_status-found id status s s' a e = rw e refl

  -- Over a database that does what storm documents, SetStatus of an action that is there: where it
  -- succeeds, Get returns the action with that status, and Get of any other identifier is as it
  -- was.
  bolt_set_status-get :
      (id status : String) (s : S) (a : AwsAction)
      → (db.actions.one id s).0 ≡ ok a
      → (bolt_set_status db id status s).0 ≡ ok tt
      → ((bolt_get_action db id (bolt_set_status db id status s).1).0
          ≡ ok (some (record a { status = status })))
        × ((j : String)
            → j ≢ id
            → (bolt_get_action db j (bolt_set_status db id status s).1).0
              ≡ (bolt_get_action db j s).0)
  unfolding bolt_get_action
  bolt_set_status-get id status s a there set =
      let b : AwsAction = record a { status = status } in
      let e =
        set_status-found id status s s a (ap₂ (λ r t. (r, t)) there (actions.one_reads id s)) in
      let i = actions.one_id id s a there in
      let saved = ap (λ r. r.0) (sym e) ∙ set in
      (
        ap (λ (r : Outcome (Unit {0}) × S). found (db.actions.one id r.1).0) e
            ∙ ap (λ j. found (db.actions.one j (db.actions.save b s).1).0) (sym i)
            ∙ ap found (actions.one_save b s saved),
        λ j ne.
            ap (λ (r : Outcome (Unit {0}) × S). found (db.actions.one j r.1).0) e
            ∙ ap found (actions.one_save_other b s j (λ q. ne (q ∙ i))),
      )
