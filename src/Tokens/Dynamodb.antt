-- ===== src/Tokens/Dynamodb.antt =====
-- pkg/tokens/dynamodb_token.go, over the calls of the client on its table and the conversion of
-- items.  The item of GetItem is none where the table has none; `generate` is GenerateRandomToken.
use iamzero.Prelude.{String, Option, none, some, List}
use iamzero.Prelude.Outcome.{Outcome, err, Exec, ◌>>=◌, ◌>>◌, pure, lift, wrapping, token_not_found}
use iamzero.Tokens.{Token, TokenStorer}

pub record ItemTable (S I : Type 0) : Type 0 where
  pub put_item : I → Exec S (Unit {0})
  pub delete_item : String → Exec S (Unit {0})
  pub get_item : String → Exec S (Option I)
  pub scan : Exec S (List I)
  pub marshal_map : Token → Outcome I
  pub unmarshal_map : I → Outcome Token
  pub unmarshal_list_of_maps : List I → Outcome (List Token)

module _ {S I : Type 0} (generate : Exec S String) (table : ItemTable S I) where
  dynamodb_create : String → Exec S Token
  dynamodb_create name = wrapping "generating token" generate >>= λ id.
      wrapping "marshalling item" (lift (table.marshal_map (record { id = id; name = name })))
      >>= λ item.
          wrapping "putting item" (table.put_item item) >> pure (record { id = id; name = name })

  dynamodb_delete : String → Exec S (Unit {0})
  dynamodb_delete id = table.delete_item id

  -- The token of an item, the sentinel error where there is none.
  token_of_item : Option I → Exec S (Option Token)
  token_of_item none = lift (err token_not_found)
  token_of_item (some item) =
      wrapping "unmarshalling item" (lift (table.unmarshal_map item)) >>= λ token. pure (some token)

  dynamodb_get : String → Exec S (Option Token)
  unfolding token_of_item
  dynamodb_get id = table.get_item id >>= token_of_item

  dynamodb_list : Exec S (List Token)
  dynamodb_list = table.scan >>= λ items.
      wrapping "unmarshalling items" (lift (table.unmarshal_list_of_maps items))

  unfoldable pub dynamodb_token_storer : TokenStorer S
  unfolding dynamodb_create dynamodb_delete dynamodb_get dynamodb_list
  dynamodb_token_storer = record {
    create = dynamodb_create;
    delete = dynamodb_delete;
    get = dynamodb_get;
    list = dynamodb_list;
  }
