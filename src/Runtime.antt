-- ===== src/Runtime.antt =====
-- What the program takes from outside, and the state that its calls share: that of the storage,
-- with the number of identifiers drawn and of times read.
use iamzero.Prelude.{ℕ, suc, String}
use iamzero.Prelude.Outcome.{Outcome, ok, Exec}
use iamzero.Recommendations.{Time}

-- What arn.Parse of the AWS SDK returns.
pub record ParsedArn : Type 0 where
  pub account_id : String
  pub resource : String

-- What stands outside: identifiers, the clock, and the parser of ARNs.
pub record Env : Type 0 where
  pub uuid : ℕ → String
  pub clock : ℕ → Time
  pub parse_arn : String → Outcome ParsedArn

pub record World (S : Type 0) : Type 0 where
  pub store : S
  pub drawn : ℕ
  pub read : ℕ

abbrev pub in_store : {S A : Type 0} → Outcome A × S → World S → Outcome A × World S
in_store (r, s) w = (r, record w { store = s })

-- A call of the storage, and one that draws identifiers.
abbrev pub stored : {S A : Type 0} → Exec S A → Exec (World S) A
stored m w = in_store (m w.store) w

abbrev pub drawing : {S A : Type 0} → Exec ℕ A → Exec (World S) A
drawing m w = let r = m w.drawn in (r.0, record w { drawn = r.1 })

unfoldable pub draw_id : {S : Type 0} → Env → Exec (World S) String
draw_id env w = (ok (env.uuid w.drawn), record w { drawn = suc w.drawn })

unfoldable pub read_time : {S : Type 0} → Env → Exec (World S) Time
read_time env w = (ok (env.clock w.read), record w { read = suc w.read })
