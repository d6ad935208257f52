-- ===== src/Tokens/Memory.antt =====
-- pkg/tokens/inmemory_token.go.  The state is the list of tokens, with the random draws made.
use iamzero.Prelude.{ℕ, suc, String, Option, none, some, List, [], ◌∷◌, ◌++◌, ◌==◌, if◌then◌else◌}
use iamzero.Prelude.Outcome.{Outcome, ok, err, panic, wrap, Exec}
use iamzero.Tokens.{Token, TokenStorer}
use iamzero.Tokens.Random.{generate_random_token}

pub record Tokens : Type 0 where
  pub tokens : List Token
  pub generated : ℕ

unfoldable pub get_token : String → List Token → Option Token
get_token id [] = none
get_token id (t ∷ ts) = if t.id == id then some t else get_token id ts

-- The tokens without the first one of that identifier, in order.
unfoldable pub delete_token : String → List Token → List Token
delete_token id [] = []
delete_token id (t ∷ ts) = if t.id == id then ts else t ∷ delete_token id ts

abbrev pub generated_token : Outcome String → String → Exec Tokens Token
generated_token (ok id) name s =
    let token : Token = record { id = id; name = name } in
    (ok token, record { tokens = s.tokens ++ token ∷ []; generated = suc s.generated })
generated_token (err e) name s =
    (err (wrap "generating token" e), record s { generated = suc s.generated })
generated_token (panic p) name s = (panic p, record s { generated = suc s.generated })

-- `draws n` are the draws of the n-th token.
module _ (draws : ℕ → ℕ → Outcome ℕ) where
  unfoldable pub create : String → Exec Tokens Token
  unfolding generate_random_token
  create name s = generated_token (generate_random_token (draws s.generated)) name s

  unfoldable pub delete : String → Exec Tokens (Unit {0})
  unfolding delete_token
  delete id s = (ok tt, record s { tokens = delete_token id s.tokens })

  abbrev pub in_memory_token_storer : TokenStorer Tokens
  in_memory_token_storer = record {
    create = create;
    delete = delete;
    get = λ id s. (ok (get_token id s.tokens), s);
    list = λ s. (ok s.tokens, s);
  }
