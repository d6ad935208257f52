-- ===== src/Audit/Loading/Added.antt =====
-- Calls that add roles of given ARNs, one after the other and in groups of goroutines.
use mathlib.Core.List.{append-nil, append_assoc}
use iamzero.Prelude.{
  String, ◌≡◌, refl, sym, ap, ◌∙◌, List, [], ◌∷◌, ◌++◌, map, Bool, Bool-cases, inl, inr,
}
use iamzero.Prelude.Outcome.{
  Outcome, ok, err, panic, Error, Exec, ◌>>=◌, ◌>>◌, pure, lift, after_call,
}
use iamzero.Audit.{Auditor}
use iamzero.Audit.Loading.{ignoring, failed_group, after_goroutine, run_group}

abbrev pub role_arns : Auditor → List String
role_arns a = map (λ r. r.arn) a.iam_roles

-- Where a call succeeds, it has added roles of those ARNs.
abbrev pub AddedTo : List String → List String → Outcome (Unit {0}) × Auditor → Type 0
AddedTo old arns (ok u, a) = role_arns a ≡ old ++ arns
AddedTo old arns (err e, a) = Unit
AddedTo old arns (panic p, a) = Unit

pub record Adds (arns : List String) (m : Exec Auditor (Unit {0})) : Type 0 where
  pub in_state : (a : Auditor) → AddedTo (role_arns a) arns (m a)

AddedTo-shift :
    (old arns more mid : List String) (r : Outcome (Unit {0}) × Auditor)
    → mid ≡ old ++ arns
    → AddedTo mid more r
    → AddedTo old (arns ++ more) r
AddedTo-shift old arns more mid (ok u, a) e h =
    h ∙ ap (λ xs. xs ++ more) e ∙ append_assoc old arns more
AddedTo-shift old arns more mid (err x, a) e h = tt
AddedTo-shift old arns more mid (panic p, a) e h = tt

AddedTo-after :
    (old arns more : List String) (r : Outcome (Unit {0}) × Auditor) (n : Exec Auditor (Unit {0}))
    → AddedTo old arns r
    → Adds more n
    → AddedTo old (arns ++ more) (after_call r (λ u. n))
AddedTo-after old arns more (ok u, a) n h k =
    AddedTo-shift old arns more (role_arns a) (n a) h (k.in_state a)
AddedTo-after old arns more (err e, a) n h k = tt
AddedTo-after old arns more (panic p, a) n h k = tt

pub Adds-then :
    (arns more : List String) (m n : Exec Auditor (Unit {0}))
    → Adds arns m
    → Adds more n
    → Adds (arns ++ more) (m >> n)
Adds-then arns more m n h k = record {
  in_state = λ a. AddedTo-after (role_arns a) arns more (m a) n (h.in_state a) k;
}

pub Adds-none : Adds [] (pure tt)
Adds-none = record { in_state = λ a. sym (append-nil (role_arns a)) }

pub Adds-lift :
    {A : Type 0} (arns : List String) (r : Outcome A) (f : A → Exec Auditor (Unit {0}))
    → ((x : A) → r ≡ ok x → Adds arns (f x))
    → Adds arns (lift r >>= f)
Adds-lift arns (ok x) f h = record { in_state = λ a. (h x refl).in_state a }
Adds-lift arns (err e) f h = record { in_state = λ a. tt }
Adds-lift arns (panic p) f h = record { in_state = λ a. tt }

-- The ARNs that the goroutines of a group add.
abbrev pub added_by : {R : Type 0} → (R → List String) → List R → List String
added_by arns_of [] = []
added_by arns_of (r ∷ rs) = arns_of r ++ added_by arns_of rs

module _ {R : Type 0} (goes_on : R → Bool) (run : R → Exec Auditor (Unit {0}))
    (arns_of : R → List String) (run-Adds : (r : R) → Adds (arns_of r) (run r)) where
  ignoring-AddedTo :
      (old arns : List String) (o : Outcome (Unit {0}) × Auditor) (rest : Exec Auditor (Unit {0}))
      → ((b : Auditor) → AddedTo old arns (rest b))
      → AddedTo old arns (ignoring goes_on run o rest)
  unfolding ignoring
  ignoring-AddedTo old arns (ok u, b) rest h = h b
  ignoring-AddedTo old arns (err x, b) rest h = h b
  ignoring-AddedTo old arns (panic p, b) rest h = tt

  failed_group-AddedTo :
      (old arns : List String) (e : Error) (rs : List R) (a : Auditor)
      → AddedTo old arns (failed_group goes_on run e rs a)
  unfolding failed_group
  failed_group-AddedTo old arns e [] a = tt
  failed_group-AddedTo old arns e (r ∷ rs) a = elim (Bool-cases (goes_on r)) [
    | inl q ↦ rw q (
        ignoring-AddedTo old arns (run r a) (failed_group goes_on run e rs)
          (failed_group-AddedTo old arns e rs))
    | inr q ↦ rw q (failed_group-AddedTo old arns e rs a)
  ]

  goroutine-AddedTo :
      (old arns more : List String) (o : Outcome (Unit {0}) × Auditor) (rs : List R)
      → AddedTo old arns o
      → Adds more (run_group goes_on run rs)
      → AddedTo old (arns ++ more) (
          after_goroutine goes_on run o
            (run_group goes_on run rs)
            (λ e. failed_group goes_on run e rs))
  unfolding after_goroutine
  goroutine-AddedTo old arns more (ok u, a) rs h k =
      AddedTo-shift old arns more (role_arns a) (run_group goes_on run rs a) h (k.in_state a)
  goroutine-AddedTo old arns more (err e, a) rs h k = failed_group-AddedTo old (arns ++ more) e rs a
  goroutine-AddedTo old arns more (panic p, a) rs h k = tt

  pub run_group-Adds : (rs : List R) → Adds (added_by arns_of rs) (run_group goes_on run rs)
  unfolding run_group
  run_group-Adds [] = Adds-none
  run_group-Adds (r ∷ rs) = record {
    in_state = λ a.
        goroutine-AddedTo (role_arns a) (arns_of r) (added_by arns_of rs) (run r a) rs
          ((run-Adds r).in_state a) (run_group-Adds rs);
  }
