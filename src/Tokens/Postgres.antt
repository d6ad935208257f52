-- ===== src/Tokens/Postgres.antt =====
-- pkg/tokens/postgres_token.go, over one operation of the database for each statement.  The token
-- that a row holds is none where the query fails with sql.ErrNoRows; `generate` is
-- GenerateRandomToken, which draws.
use iamzero.Prelude.{String, Option, List}
use iamzero.Prelude.Outcome.{Exec, ◌>>=◌, ◌>>◌, pure, wrapping}
use iamzero.Tokens.{Token, TokenStorer}

pub record TokenTable (S : Type 0) : Type 0 where
  pub insert_token : Token → Exec S (Unit {0})
  pub delete_row : String → Exec S (Unit {0})
  pub get_row : String → Exec S (Option Token)
  pub select_tokens : Exec S (List Token)

module _ {S : Type 0} (generate : Exec S String) (table : TokenTable S) where
  pg_create : String → Exec S Token
  pg_create name = wrapping "generating token" generate >>= λ id.
      wrapping "inserting item" (table.insert_token (record { id = id; name = name }))
      >> pure (record { id = id; name = name })

  pg_delete : String → Exec S (Unit {0})
  pg_delete id = table.delete_row id

  pg_get_token : String → Exec S (Option Token)
  pg_get_token id = wrapping "fetching item" (table.get_row id)

  pg_list : Exec S (List Token)
  pg_list = table.select_tokens

  unfoldable pub postgres_token_storer : TokenStorer S
  unfolding pg_create pg_delete pg_get_token pg_list
  postgres_token_storer = record {
    create = pg_create;
    delete = pg_delete;
    get = pg_get_token;
    list = pg_list;
  }
