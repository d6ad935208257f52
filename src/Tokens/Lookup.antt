-- ===== src/Tokens/Lookup.antt =====
-- What Get finds in the in-memory token storage after Create and Delete.
use iamzero.Prelude.{
  ℕ, suc, String, ◌≡◌, ◌≢◌, refl, none, some, List, [], ◌∷◌, ◌++◌, arith, ◌==◌, eq_iff, eq_refl,
  if◌then◌else◌,
}
use iamzero.Prelude.Outcome.{Outcome, ok}
use iamzero.Tokens.{Token}
use iamzero.Tokens.Random.{generate_random_token}
use iamzero.Tokens.Memory.{Tokens, get_token, delete_token, create, delete, in_memory_token_storer}

pub get_token-append :
    (j : String) (t : Token) (ts : List Token)
    → get_token j (ts ++ t ∷ [])
      ≡ elim (get_token j ts) [ none ↦ if t.id == j then some t else none | some u ↦ some u ]
unfolding get_token
get_token-append j t [] = refl
get_token-append j t (u ∷ ts) = ground (arith, get_token-append j t ts)

delete_token-append :
    (t : Token) (ts : List Token) → get_token t.id ts ≡ none → delete_token t.id (ts ++ t ∷ []) ≡ ts
unfolding get_token delete_token
delete_token-append t [] h = ground (arith, eq_refl t.id)
delete_token-append t (u ∷ ts) h = ground (arith, delete_token-append t ts)

pub get_token-delete_token :
    (j id : String) (ts : List Token) → j ≢ id → get_token j (delete_token id ts) ≡ get_token j ts
unfolding get_token delete_token
get_token-delete_token j id [] ne = refl
get_token-delete_token j id (u ∷ ts) ne =
    ground (arith, get_token-delete_token j id ts ne, eq_iff u.id j, eq_iff u.id id)

-- Create, where an identifier can be generated that no token has, returns a token of that
-- identifier and the given name.  Get of the identifier then returns it, Get of any other is as
-- it was, and Delete of the identifier brings the list of tokens back.
create-get-delete :
    (draws : ℕ → ℕ → Outcome ℕ) (name id : String) (s : Tokens)
    → generate_random_token (draws s.generated) ≡ ok id
    → get_token id s.tokens ≡ none
    → (t : Token) × (s' : Tokens) × (create draws name s ≡ (ok t, s'))
      × (t.id ≡ id)
      × (t.name ≡ name)
      × (get_token id s'.tokens ≡ some t)
      × ((j : String) → j ≢ id → get_token j s'.tokens ≡ get_token j s.tokens)
      × ((delete draws id s').1.tokens ≡ s.tokens)
unfolding create delete
create-get-delete draws name id s drawn new =
    let t : Token = record { id = id; name = name } in
    (
      t,
      record { tokens = s.tokens ++ t ∷ []; generated = suc s.generated },
      rw drawn refl,
      refl,
      refl,
      ground (arith, get_token-append id t s.tokens, eq_refl id),
      λ j ne. ground (arith, get_token-append j t s.tokens, eq_iff id j),
      delete_token-append t s.tokens new,
    )

-- Delete does not change what Get finds for any other identifier.
get-delete :
    (draws : ℕ → ℕ → Outcome ℕ) (j id : String) (s : Tokens)
    → j ≢ id
    → ((in_memory_token_storer draws).get j ((in_memory_token_storer draws).delete id s).1).0
      ≡ ((in_memory_token_storer draws).get j s).0
unfolding delete
get-delete draws j id s ne = rw (get_token-delete_token j id s.tokens ne) refl
