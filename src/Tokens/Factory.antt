-- ===== src/Tokens/Factory.antt =====
-- GetTokensStore of pkg/tokens/factory.go, over what the three constructors return.
use iamzero.Prelude.{String, ◌==◌, if◌then◌else◌}
use iamzero.Prelude.Outcome.{Outcome, ok, err, plain}

-- The three storers have states of their own, so a type T stands for any of them.
unfoldable pub get_tokens_store : {T : Type 0} → String → Outcome T → T → Outcome T → Outcome T
get_tokens_store backend dynamodb inmemory postgres =
    if backend == "dynamodb"
    then dynamodb
    else if backend == "inmemory"
    then ok inmemory
    else if backend == "postgres"
    then postgres
    else err (plain "token storage type must be dynamodb, inmemory, or postgres")
