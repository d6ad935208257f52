-- ===== src/Policies/Decoding.antt =====
-- pkg/policies/policy.go: fields that hold a text or a list of texts, and statements that come
-- alone or in a list.  Package encoding/json turns the bytes into a `Json` value first.
use mathlib.Core.List.{append-nil, append_assoc}
use iamzero.Prelude.{◌≢◌, ◌⊎◌, inl, inr, String, ◌≡◌, refl, List, [], ◌∷◌, ◌++◌}
use iamzero.Prelude.Outcome.{Outcome, ok, err, panic, plain, type_assertion}

mutual
  -- A decoded `interface{}`; `scalar` stands for null, a Boolean or a number.
  data Json : Type 0 where
    scalar : Json
    str : String → Json
    slice : Items → Json
    object : Fields → Json

  data Items : Type 0 where
    no_items : Items
    item : Json → Items → Items

  data Fields : Type 0 where
    no_fields : Fields
    field : String → Json → Fields → Fields

-- for _, item := range slice { *c = append(*c, item.(string)) }
append_items : List String → Items → Outcome (List String)
append_items c no_items = ok c
append_items c (item (str s) rest) = append_items (c ++ s ∷ []) rest
append_items c (item j rest) = panic type_assertion

-- StringOrStringArray.UnmarshalJSON, on the receiver's present value.
unmarshal_strings : List String → Json → Outcome (List String)
unfolding append_items
unmarshal_strings c (slice items) = append_items c items
unmarshal_strings c (str s) = ok (c ++ s ∷ [])
unmarshal_strings c j = err (plain "Field neither slice or string")

abbrev texts : List String → Items
texts [] = no_items
texts (s ∷ ss) = item (str s) (texts ss)

append_items-texts : (c ss : List String) → append_items c (texts ss) ≡ ok (c ++ ss)
unfolding append_items
append_items-texts c [] = rw append-nil refl
append_items-texts c (s ∷ ss) = rw (append_items-texts (c ++ s ∷ []) ss, append_assoc) refl

-- What the loop does with the items: it adds them, or meets one that is no text.
AreTexts : Items → Type 0
AreTexts items = (ss : List String) × (items ≡ texts ss)

append_items-cases :
    (items : Items)
    → AreTexts items ⊎ ((c : List String) → append_items c items ≡ panic type_assertion)
unfolding append_items AreTexts
append_items-cases no_items = inl ([], refl)
append_items-cases (item scalar rest) = inr λ c. refl
append_items-cases (item (slice j) rest) = inr λ c. refl
append_items-cases (item (object j) rest) = inr λ c. refl
append_items-cases (item (str s) rest) = elim (append_items-cases rest) [
  | inl (ss, e) ↦ inl (s ∷ ss, rw e refl)
  | inr p ↦ inr λ c. p (c ++ s ∷ [])
]

-- A JSON text is added to the receiver; a slice of texts is added in order; a slice with anything
-- else in it panics; any other value is an error.
unmarshal_strings_lem :
    (c : List String)
    → ((s : String) → unmarshal_strings c (str s) ≡ ok (c ++ s ∷ []))
      × ((ss : List String) → unmarshal_strings c (slice (texts ss)) ≡ ok (c ++ ss))
      × ((items : Items)
          → ((ss : List String) → items ≢ texts ss)
          → unmarshal_strings c (slice items) ≡ panic type_assertion)
      × ((fs : Fields)
          → unmarshal_strings c (object fs) ≡ err (plain "Field neither slice or string"))
unfolding unmarshal_strings AreTexts
unmarshal_strings_lem c = (
  λ s. refl,
  append_items-texts c,
  λ items h. elim (append_items-cases items) [ inl (ss, e) ↦ absurd (h ss e) | inr p ↦ p c ],
  λ fs. refl,
)
