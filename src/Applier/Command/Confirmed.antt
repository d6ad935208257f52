-- ===== src/Applier/Command/Confirmed.antt =====
-- Nothing is written that the user has not accepted.
use iamzero.Prelude.{String, ◌≡◌, refl, ◌∙◌, Bool, true, false, ◌||◌, List, [], ◌∷◌, All}
use iamzero.Prelude.Outcome.{Outcome, ok, err, panic, Exec, ◌>>=◌, lift, wrapping, after_call}
use iamzero.Recommendations.{AwsAction, Finding}
use iamzero.Applier.{PendingChanges, PolicyApplier}
use iamzero.Applier.Command.{
  write_accepted, apply_one, apply_each, run_detected, run_appliers, not_detected, apply_findings,
}

module _ {S D : Type 0} (disk : S → D) where
  -- A call that leaves the disk as it is, however it ends.
  pub record Reads {A : Type 0} (m : Exec S A) : Type 0 where
    pub same_disk : (s : S) → disk (m s).1 ≡ disk s

  after_call-same :
      {A B : Type 0} (d : D) (r : Outcome A × S) (f : A → Exec S B)
      → disk r.1 ≡ d
      → ((a : A) → Reads (f a))
      → disk (after_call r f).1 ≡ d
  after_call-same d (ok a, s) f e h = (h a).same_disk s ∙ e
  after_call-same d (err x, s) f e h = e
  after_call-same d (panic x, s) f e h = e

  pub Reads-bind :
      {A B : Type 0} (m : Exec S A) (f : A → Exec S B)
      → Reads m
      → ((a : A) → Reads (f a))
      → Reads (m >>= f)
  Reads-bind m f p q = record {
    same_disk = λ s. after_call-same (disk s) (m s) f (p.same_disk s) q;
  }

  pub Reads-lift : {A : Type 0} (r : Outcome A) → Reads (lift r)
  Reads-lift r = record { same_disk = λ s. refl }

  Reads-wrapping :
      {A : Type 0} (message : String) (m : Exec S A) → Reads m → Reads (wrapping message m)
  Reads-wrapping message m p = record { same_disk = λ s. p.same_disk s }

  -- An applier of which only Apply writes to the disk.
  pub record WritesInApply (applier : PolicyApplier S) : Type 0 where
    pub init-Reads : Reads applier.init
    pub detect-Reads : Reads applier.detect
    pub calculate_finding-Reads :
        (finding : Finding) (actions : List AwsAction)
        → Reads (applier.calculate_finding finding actions)
    pub plan-Reads : Reads applier.plan

  -- The user declines every change.
  pub record Declines (confirmed : Exec S Bool) : Type 0 where
    pub declined : (s : S) → (confirmed s).0 ≡ ok false
    pub confirmed-Reads : Reads confirmed

  module _ (render_detected : String → Exec S (Unit {0}))
      (render_diff : PendingChanges → Exec S (Unit {0})) (confirmed : Exec S Bool)
      (actions_for : String → Exec S (List AwsAction))
      (detected-Reads : (name : String) → Reads (render_detected name))
      (diff-Reads : (plan : PendingChanges) → Reads (render_diff plan))
      (actions-Reads : (id : String) → Reads (actions_for id)) (declines : Declines confirmed) where
    declined_after :
        (applier : PolicyApplier S) (plan : PendingChanges) (d : D) (r : Outcome Bool × S)
        → r.0 ≡ ok false
        → disk r.1 ≡ d
        → disk
            (after_call r
              (write_accepted render_detected render_diff confirmed actions_for applier plan)).1
          ≡ d
    unfolding write_accepted
    declined_after applier plan d (ok true, s) e h = cc
    declined_after applier plan d (ok false, s) e h = h
    declined_after applier plan d (err x, s) e h = h
    declined_after applier plan d (panic x, s) e h = h

    confirmed-write-Reads :
        (applier : PolicyApplier S) (plan : PendingChanges)
        → Reads (
            confirmed
            >>= write_accepted render_detected render_diff confirmed actions_for applier plan)
    confirmed-write-Reads applier plan = record {
      same_disk = λ s.
          declined_after applier plan (disk s) (confirmed s) (declines.declined s)
            (declines.confirmed-Reads.same_disk s);
    }

    apply_one-Reads :
        (applier : PolicyApplier S) (finding : Finding)
        → WritesInApply applier
        → Reads (apply_one render_detected render_diff confirmed actions_for applier finding)
    unfolding apply_one
    apply_one-Reads applier finding w = Reads-bind _ _ (actions-Reads finding.id) λ actions.
        Reads-bind _ _ (w.calculate_finding-Reads finding actions) λ u.
          Reads-bind _ _ w.plan-Reads λ plan.
            Reads-bind _ _
              (Reads-wrapping "error rendering diff" (render_diff plan) (diff-Reads plan))
              λ v. confirmed-write-Reads applier plan

    apply_each-Reads :
        (applier : PolicyApplier S) (findings : List Finding)
        → WritesInApply applier
        → Reads (apply_each render_detected render_diff confirmed actions_for applier findings)
    unfolding apply_each
    apply_each-Reads applier [] w = Reads-lift (ok tt)
    apply_each-Reads applier (f ∷ fs) w =
        Reads-bind _ _ (apply_one-Reads applier f w) λ u. apply_each-Reads applier fs w

    run_detected-Reads :
        (applier : PolicyApplier S) (findings : List Finding) (detected : Bool)
        → WritesInApply applier
        → Reads (
            run_detected render_detected render_diff confirmed actions_for applier findings
              detected)
    unfolding run_detected
    run_detected-Reads applier findings false w = Reads-lift (ok tt)
    run_detected-Reads applier findings true w =
        Reads-bind _ _
          (Reads-bind _ _
            (Reads-wrapping "error rendering project detected message"
              (render_detected applier.get_project_name) (detected-Reads applier.get_project_name))
            λ u. Reads-wrapping "error initializing the applier" applier.init w.init-Reads)
          λ v. apply_each-Reads applier findings w

    run_appliers-Reads :
        (findings : List Finding) (appliers : List (PolicyApplier S)) (found : Bool)
        → All WritesInApply appliers
        → Reads
            (run_appliers render_detected render_diff confirmed actions_for findings appliers found)
    unfolding run_appliers
    run_appliers-Reads findings [] found w = Reads-lift (ok found)
    run_appliers-Reads findings (a ∷ appliers) found w = Reads-bind _ _ w.0.detect-Reads λ detected.
        Reads-bind _ _ (run_detected-Reads a findings detected w.0)
          λ u. run_appliers-Reads findings appliers (detected || found) w.1

    -- With appliers of which only Apply writes to the disk, and a user who declines every change,
    -- the command leaves the disk as it was, however it ends.
    pub apply_findings-declined :
        (project_path : String) (findings : List Finding) (appliers : List (PolicyApplier S))
        (s : S)
        → All WritesInApply appliers
        → disk
            (apply_findings render_detected render_diff confirmed actions_for project_path findings
              appliers s).1
          ≡ disk s
    unfolding apply_findings
    apply_findings-declined project_path findings appliers s w =
        after_call-same (disk s)
          (run_appliers render_detected render_diff confirmed actions_for findings appliers false s)
          _ ((run_appliers-Reads findings appliers false w).same_disk s)
          λ detected.
            Reads-lift
              (not_detected render_detected render_diff confirmed actions_for project_path detected)
