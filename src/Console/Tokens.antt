-- ===== src/Console/Tokens.antt =====
-- cmd/console/app/api/tokens.go.  CreateToken takes the name of its request.
use iamzero.Prelude.{String, List}
use iamzero.Prelude.Outcome.{lift}
use iamzero.Tokens.{Token, TokenStorer}
use iamzero.Http.{
  Handler, RequestBody, respond_json, no_body, or_respond, respond, decode_json_body,
}

module _ {T : Type 0} (store : TokenStorer T) where
  unfoldable pub list_tokens : Handler T (List Token)
  unfolding respond_json
  list_tokens = or_respond store.list λ tokens. respond (respond_json tokens 200)

  unfoldable pub delete_token : String → Handler T (Unit {0})
  delete_token id =
      or_respond (store.delete id) λ _. respond (record { status = 200; body = no_body })

  unfoldable pub create_token : RequestBody String → Handler T Token
  unfolding respond_json decode_json_body
  create_token body =
      or_respond (lift (decode_json_body body))
        λ name. or_respond (store.create name) λ token. respond (respond_json token 200)
