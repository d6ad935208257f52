-- ===== src/Storage/Bolt/Tests.antt =====
-- A database of findings and actions in memory, which does what the storages rely on.
use iamzero.Prelude.{
  String, ◌≡◌, ◌≢◌, refl, List, [], ◌∷◌, arith, ◌==◌, eq_iff, eq_refl, if◌then◌else◌,
}
use iamzero.Prelude.Outcome.{Outcome, ok, err, plain}
use iamzero.Recommendations.{AwsAction, Finding}
use iamzero.Storage.Bolt.{Db}
use iamzero.Storage.Bolt.Contract.{IsBucket}

-- The last record of each identifier stands first.
abbrev read : {A : Type 0} → (A → String) → String → List A → Outcome A
read id_of id [] = err (plain "not found")
read id_of id (x ∷ xs) = if id_of x == id then ok x else read id_of id xs

abbrev Saved : Type 0
Saved = List Finding × List AwsAction

abbrev sample_db : Db Saved
sample_db = record {
  findings = record {
    all = λ s. (ok s.0, s);
    one = λ id s. (read (λ f. f.id) id s.0, s);
    save = λ f s. (ok tt, (f ∷ s.0, s.1));
  };
  actions = record {
    all = λ s. (ok s.1, s);
    one = λ id s. (read (λ a. a.id) id s.1, s);
    save = λ a s. (ok tt, (s.0, a ∷ s.1));
  };
  with_status = λ status s. (ok [], s);
}

read-id :
    {A : Type 0}
    → (id_of : A → String) (id : String) (xs : List A) (x : A) → read id_of id xs ≡ ok x
    → id_of x ≡ id
read-id id_of id [] x e = cc
read-id id_of id (y ∷ ys) x e = ground (arith, eq_iff (id_of y) id, read-id id_of id ys x)

read-first :
    {A : Type 0} → (id_of : A → String) (x : A) (xs : List A) → read id_of (id_of x) (x ∷ xs) ≡ ok x
read-first id_of x xs = ground (arith, eq_refl (id_of x))

read-other :
    {A : Type 0}
    → (id_of : A → String) (x : A) (xs : List A) (id : String) → id ≢ id_of x
    → read id_of id (x ∷ xs) ≡ read id_of id xs
read-other id_of x xs id ne = ground (arith, eq_iff (id_of x) id)

findings-IsBucket : IsBucket (λ (f : Finding). f.id) sample_db.findings
findings-IsBucket = record {
  one_reads = λ id s. refl;
  one_id = λ id s a e. read-id (λ (f : Finding). f.id) id s.0 a e;
  one_save = λ a s h. read-first (λ (f : Finding). f.id) a s.0;
  one_save_other = λ a s id ne. read-other (λ (f : Finding). f.id) a s.0 id ne;
}

actions-IsBucket : IsBucket (λ (a : AwsAction). a.id) sample_db.actions
actions-IsBucket = record {
  one_reads = λ id s. refl;
  one_id = λ id s a e. read-id (λ (x : AwsAction). x.id) id s.1 a e;
  one_save = λ a s h. read-first (λ (x : AwsAction). x.id) a s.1;
  one_save_other = λ a s id ne. read-other (λ (x : AwsAction). x.id) a s.1 id ne;
}
