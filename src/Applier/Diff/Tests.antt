-- ===== src/Applier/Diff/Tests.antt =====
-- A hunk that replaces one line by two.
use iamzero.Prelude.{◌≡◌, refl, false, [], ◌∷◌}
use iamzero.Prelude.Digits.{decimal}
use iamzero.Applier.Diff.{delete, insert, format}

replaced :
    format
      (λ s. s)
      (λ s. s)
      (λ s. false)
      (record {
        from = "main.tf";
        hunks =
            record {
              from_line = 3;
              to_line = 3;
              lines =
                  record { kind = delete; content = "a" }
                  ∷ record { kind = insert; content = "b" }
                  ∷ record { kind = insert; content = "c" }
                  ∷ [];
            }
            ∷ [];
      })
    ≡ "main.tf\n@@ -3 +3,2 @@\n-a\n\\ No newline at end of file\n+b\n\\ No newline at end of file\n+c\n\\ No newline at end of file\n"
unfolding format decimal
replaced = refl
