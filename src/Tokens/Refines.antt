-- ===== src/Tokens/Refines.antt =====
-- The in-memory token storage against a map from identifiers to tokens.
use iamzero.Prelude.{
  ℕ, suc, ◌+◌, ◌≤◌, ◌<◌, String, ◌≡◌, refl, sym, ap, ap₂, ◌∙◌, Option, none, some, List, [], ◌∷◌,
  ◌++◌, arith, ◌==◌, eq_iff, if◌then◌else◌, Bool-cases, inl, inr,
}
use iamzero.Prelude.Outcome.{Outcome, ok, Exec, ◌>>=◌, ◌>>◌, pure}
use iamzero.Tokens.{Token, TokenStorer}
use iamzero.Tokens.Random.{generate_random_token}
use iamzero.Tokens.Memory.{Tokens, get_token, delete_token, create, delete, in_memory_token_storer}
use iamzero.Tokens.Lookup.{get_token-append, get_token-delete_token}

pub data Call : Type 0 where
  create_call delete_call get_call : String → Call

pub data Reply : Type 0 where
  created : Token → Reply
  deleted : Reply
  found : Option Token → Reply

abbrev pub perform : {S : Type 0} → TokenStorer S → Call → Exec S Reply
perform storer (create_call name) = storer.create name >>= λ t. pure (created t)
perform storer (delete_call id) = storer.delete id >> pure deleted
perform storer (get_call id) = storer.get id >>= λ t. pure (found t)

-- What a storer answers to calls, one after the other.
abbrev pub replies : {S : Type 0} → TokenStorer S → List Call → S → List (Outcome Reply)
replies storer [] s = []
replies storer (c ∷ calls) s = let r = perform storer c s in r.0 ∷ replies storer calls r.1

-- A map, and the number of tokens that have been created.
pub record TokenMap : Type 0 where
  pub at : String → Option Token
  pub next : ℕ

module _ (ids : ℕ → String) where
  -- What a map of tokens answers; the n-th token gets the n-th identifier.
  abbrev pub map_replies : List Call → TokenMap → List (Outcome Reply)
  map_replies [] m = []
  map_replies (create_call name ∷ calls) m =
      let t : Token = record { id = ids m.next; name = name } in
      ok (created t)
      ∷ map_replies calls
          (record { at = λ j. if t.id == j then some t else m.at j; next = suc m.next })
  map_replies (delete_call id ∷ calls) m =
      ok deleted ∷ map_replies calls (record m { at = λ j. if id == j then none else m.at j })
  map_replies (get_call id ∷ calls) m = ok (found (m.at id)) ∷ map_replies calls m

-- No two tokens have one identifier.
abbrev Distinct : List Token → Type 0
Distinct [] = Unit
Distinct (t ∷ ts) = (get_token t.id ts ≡ none) × Distinct ts

get_token-deleted :
    (id : String) (ts : List Token) → Distinct ts → get_token id (delete_token id ts) ≡ none
unfolding get_token delete_token
get_token-deleted id [] d = refl
get_token-deleted id (t ∷ ts) d = elim (Bool-cases (t.id == id)) [
  | inl e ↦ rw e (ap (λ j. get_token j ts) (sym ((eq_iff t.id id).0 e)) ∙ d.0)
  | inr e ↦ rw (e, e) (get_token-deleted id ts d.1)
]

get_token-unused :
    (j id : String) (ts : List Token)
    → get_token j ts ≡ none
    → get_token j (delete_token id ts) ≡ none
unfolding get_token delete_token
get_token-unused j id [] n = refl
get_token-unused j id (t ∷ ts) n = ground (arith, get_token-unused j id ts)

Distinct-append :
    (t : Token) (ts : List Token) → Distinct ts → get_token t.id ts ≡ none → Distinct (ts ++ t ∷ [])
unfolding get_token
Distinct-append t [] d n = (refl, tt)
Distinct-append t (u ∷ ts) d n = elim (Bool-cases (u.id == t.id)) [
  | inl e ↦ absurd (ground (arith, n, e))
  | inr e ↦ (
    ground (arith, get_token-append u.id t ts, d.0, e, eq_iff u.id t.id, eq_iff t.id u.id),
    Distinct-append t ts d.1 (ground (arith, n, e)),
  )
]

Distinct-delete : (id : String) (ts : List Token) → Distinct ts → Distinct (delete_token id ts)
unfolding delete_token
Distinct-delete id [] d = tt
Distinct-delete id (t ∷ ts) d = elim (Bool-cases (t.id == id)) [
  | inl e ↦ rw e d.1
  | inr e ↦ rw e (
    get_token-delete_token t.id id ts (λ p. ground (arith, eq_iff t.id id, e, p)) ∙ d.0,
    Distinct-delete id ts d.1,
  )
]

abbrev pub creates : List Call → ℕ
creates [] = 0
creates (create_call name ∷ calls) = suc (creates calls)
creates (delete_call id ∷ calls) = creates calls
creates (get_call id ∷ calls) = creates calls

module _ (draws : ℕ → ℕ → Outcome ℕ) (ids : ℕ → String) (bound : ℕ)
    (drawn : (n : ℕ) → n < bound → generate_random_token (draws n) ≡ ok (ids n))
    (injective : (n m : ℕ) → n < bound → m < bound → ids n ≡ ids m → n ≡ m) where
  record Simulates (s : Tokens) (m : TokenMap) : Type 0 where
    numbers : s.generated ≡ m.next
    same : (j : String) → get_token j s.tokens ≡ m.at j
    unused : (n : ℕ) → s.generated ≤ n → n < bound → get_token (ids n) s.tokens ≡ none
    distinct : Distinct s.tokens

  abbrev token_at : ℕ → String → Token
  token_at n name = record { id = ids n; name = name }

  Simulates-create :
      (name : String) (s : Tokens) (m : TokenMap)
      → Simulates s m
      → m.next < bound
      → Simulates
          (record { tokens = s.tokens ++ token_at m.next name ∷ []; generated = suc s.generated })
          (record {
            at = λ j. if ids m.next == j then some (token_at m.next name) else m.at j;
            next = suc m.next;
          })
  Simulates-create name s m h lt =
      let unused : get_token (ids m.next) s.tokens ≡ none =
        h.unused m.next (omega (arith, h.numbers)) lt in
      record {
        numbers = ap suc h.numbers;
        same = λ j. ground (
          arith,
          get_token-append j (token_at m.next name) s.tokens,
          h.same j,
          unused,
          eq_iff (ids m.next) j,
        );
        unused = λ n le nb. elim (Bool-cases (ids m.next == ids n)) [
          | inl e ↦ absurd (
              omega (
                arith,
                injective m.next n lt nb ((eq_iff (ids m.next) (ids n)).0 e),
                h.numbers,
                le,
              ))
          | inr e ↦
              get_token-append (ids n) (token_at m.next name) s.tokens
              ∙ rw (h.unused n (omega (arith, le)) nb, e) refl
        ];
        distinct = Distinct-append (token_at m.next name) s.tokens h.distinct unused;
      }

  Simulates-delete :
      (id : String) (s : Tokens) (m : TokenMap)
      → Simulates s m
      → Simulates
          (record s { tokens = delete_token id s.tokens })
          (record m { at = λ j. if id == j then none else m.at j })
  Simulates-delete id s m h = record {
    numbers = h.numbers;
    same = λ j. elim (Bool-cases (id == j)) [
      | inl e ↦ rw e (
          ap (λ k. get_token k (delete_token id s.tokens)) (sym ((eq_iff id j).0 e))
          ∙ get_token-deleted id s.tokens h.distinct)
      | inr e ↦
          rw e (
            get_token-delete_token j id s.tokens (λ p. ground (arith, eq_iff id j, e, p))
            ∙ h.same j)
    ];
    unused = λ n le nb. get_token-unused (ids n) id s.tokens (h.unused n le nb);
    distinct = Distinct-delete id s.tokens h.distinct;
  }

  replies-map_replies :
      (calls : List Call) (s : Tokens) (m : TokenMap)
      → Simulates s m
      → m.next + creates calls ≤ bound
      → replies (in_memory_token_storer draws) calls s ≡ map_replies ids calls m
  unfolding create delete
  replies-map_replies [] s m h le = refl
  replies-map_replies (create_call name ∷ calls) s m h le =
      rw (drawn s.generated (omega (arith, h.numbers, le)) ∙ ap (λ n. ok (ids n)) h.numbers) (
        ap (λ rs. ok (created (token_at m.next name)) ∷ rs)
          (replies-map_replies calls _ _ (Simulates-create name s m h (omega (arith, le)))
            (omega (arith, le))))
  replies-map_replies (delete_call id ∷ calls) s m h le =
      ap (λ rs. ok deleted ∷ rs) (replies-map_replies calls _ _ (Simulates-delete id s m h) le)
  replies-map_replies (get_call id ∷ calls) s m h le =
      ap₂ (λ t rs. ok (found t) ∷ rs) (h.same id) (replies-map_replies calls s m h le)

-- Where the draws of the calls of Create give identifiers, no two the same: from an empty storage,
-- Create, Delete and Get of the in-memory storage, called in any order, answer what a map answers to
-- which Create adds a token of a new identifier and from which Delete takes the one of its
-- identifier.
pub in_memory-map :
    (draws : ℕ → ℕ → Outcome ℕ) (ids : ℕ → String) (calls : List Call)
    → ((n : ℕ) → n < creates calls → generate_random_token (draws n) ≡ ok (ids n))
    → ((n m : ℕ) → n < creates calls → m < creates calls → ids n ≡ ids m → n ≡ m)
    → replies (in_memory_token_storer draws) calls (record { tokens = []; generated = 0 })
      ≡ map_replies ids calls (record { at = λ j. none; next = 0 })
unfolding get_token
in_memory-map draws ids calls drawn injective =
    replies-map_replies draws ids (creates calls) drawn injective calls _ _
      (record { numbers = refl; same = λ j. refl; unused = λ n le nb. refl; distinct = tt })
      (omega arith)
