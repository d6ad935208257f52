-- ===== src/Tokens.antt =====
-- pkg/tokens: the storage interface of token.go, the storers of inmemory_token.go,
-- postgres_token.go and dynamodb_token.go, factory.go, and pkg/crypto/random_token.go.
pub mod Random
pub mod Memory
pub mod Lookup
pub mod Refines
pub mod Postgres
pub mod Dynamodb
pub mod Factory
mod Tests
use iamzero.Prelude.{String, Option, List}
use iamzero.Prelude.Outcome.{Exec}

pub record Token : Type 0 where
  pub id : String
  pub name : String

pub record TokenStorer (S : Type 0) : Type 0 where
  pub create : String → Exec S Token
  pub delete : String → Exec S (Unit {0})
  pub get : String → Exec S (Option Token)
  pub list : Exec S (List Token)
