-- ===== src/Applier/Written.antt =====
-- What Apply leaves on the disk.
use iamzero.Prelude.{
  String, ◌≡◌, ◌≢◌, refl, sym, ap, ◌∙◌, subst, Option, some, [], ◌∷◌, ◌++◌, inl, inr, ◌==◌,
  if◌then◌else◌, arith, eq_iff, Bool-cases,
}
use iamzero.Prelude.Outcome.{Outcome, ok, err, panic, Exec, after_call}
use iamzero.Applier.{PendingChange, PendingChanges, write_changes}

-- What a file holds after the changes, of what it held.
abbrev pub contents_after : String → PendingChanges → Option String → Option String
contents_after path [] old = old
contents_after path (c ∷ changes) old =
    contents_after path changes (if c.path == path then some c.contents else old)

module _ {D : Type 0} (write_file : String → String → Exec D (Unit {0}))
    (read : String → D → Option String) where
  -- A write that succeeds is read back, and changes no other file.
  pub record WritesFiles : Type 0 where
    pub written :
        (path text : String) (d d' : D)
        → write_file path text d ≡ (ok tt, d')
        → read path d' ≡ some text
    pub kept :
        (path text q : String) (d d' : D)
        → write_file path text d ≡ (ok tt, d')
        → path ≢ q
        → read q d' ≡ read q d

  read-after_write :
      (files : WritesFiles) (c : PendingChange) (q : String) (d d' : D)
      → write_file c.path c.contents d ≡ (ok tt, d')
      → read q d' ≡ (if c.path == q then some c.contents else read q d)
  read-after_write files c q d d' e = elim (Bool-cases (c.path == q)) [
    | inl same ↦ rw same (
        ap (λ p. read p d') (sym ((eq_iff c.path q).0 same))
        ∙ files.written c.path c.contents d d' e)
    | inr other ↦
        rw other
          (files.kept c.path c.contents q d d' e λ p. ground (arith, eq_iff c.path q, other, p))
  ]

  abbrev Wrote : PendingChanges → D → Outcome (Unit {0}) × D → Type 0
  Wrote changes d (ok u, d') = (q : String) → read q d' ≡ contents_after q changes (read q d)
  Wrote changes d (err e, d') =
      (done : PendingChanges) × (c : PendingChange) × (rest : PendingChanges) × (d₁ : D) × (changes
        ≡ done ++ c ∷ rest)
      × (write_changes write_file done d ≡ (ok tt, d₁))
      × (write_file c.path c.contents d₁ ≡ (err e, d'))
  Wrote changes d (panic p, d') = Unit

  Wrote-cons :
      (c : PendingChange) (changes : PendingChanges) (d d₁ : D) (r : Outcome (Unit {0}) × D)
      → WritesFiles
      → write_file c.path c.contents d ≡ (ok tt, d₁)
      → Wrote changes d₁ r
      → Wrote (c ∷ changes) d r
  unfolding write_changes
  Wrote-cons c changes d d₁ (ok u, d') files e h =
      λ q. h q ∙ ap (contents_after q changes) (read-after_write files c q d d₁ e)
  Wrote-cons c changes d d₁ (err x, d') files e (done, b, rest, d₂, split, w, f) =
      (c ∷ done, b, rest, d₂, ap (λ cs. c ∷ cs) split, rw e w, f)
  Wrote-cons c changes d d₁ (panic p, d') files e h = tt

  Wrote-after :
      (c : PendingChange) (changes : PendingChanges) (d : D) (r : Outcome (Unit {0}) × D)
      → WritesFiles
      → write_file c.path c.contents d ≡ r
      → ((d₁ : D) → Wrote changes d₁ (write_changes write_file changes d₁))
      → Wrote (c ∷ changes) d (after_call r λ u. write_changes write_file changes)
  unfolding write_changes
  Wrote-after c changes d (ok u, d₁) files e h =
      Wrote-cons c changes d d₁ (write_changes write_file changes d₁) files e (h d₁)
  Wrote-after c changes d (err x, d₁) files e h = ([], c, changes, d, refl, refl, e)
  Wrote-after c changes d (panic p, d₁) files e h = tt

  write_changes-Wrote :
      (changes : PendingChanges) (d : D)
      → WritesFiles
      → Wrote changes d (write_changes write_file changes d)
  unfolding write_changes
  write_changes-Wrote [] d files = λ q. refl
  write_changes-Wrote (c ∷ changes) d files =
      Wrote-after c changes d (write_file c.path c.contents d) files refl
        λ d₁. write_changes-Wrote changes d₁ files

  pub write_changes-contents :
      (changes : PendingChanges) (d : D) (path : String)
      → WritesFiles
      → (write_changes write_file changes d).0 ≡ ok tt
      → read path (write_changes write_file changes d).1 ≡ contents_after path changes (read path d)
  write_changes-contents changes d path files e =
      subst (λ r. Wrote changes d (r, (write_changes write_file changes d).1)) e
        (write_changes-Wrote changes d files) path
