-- ===== src/Cloudtrail/Aggregated.antt =====
-- Which events an aggregator holds once it has read a log.
use iamzero.Prelude.{
  ℕ, suc, String, Bool, false, ◌≡◌, refl, ap, ◌∙◌, Option, none, some, List, [], ◌∷◌, arith,
  if◌then◌else◌, eqb, Bool-cases, ◌⊎◌, inl, inr,
}
use iamzero.Prelude.Outcome.{Outcome, ok, err, no_mapping, and_then}
use iamzero.Recommendations.{AwsEvent}
use iamzero.Cloudtrail.{
  LogEntry, Events, put_event, read, read_converted, add_event, try_convert_to_event,
}

abbrev pub event_at : ℕ → Events → Option AwsEvent
event_at key [] = none
event_at key ((k, e) ∷ rest) = if eqb k key then some e else event_at key rest

abbrev pub KeysDistinct : Events → Type 0
KeysDistinct [] = Unit
KeysDistinct ((k, e) ∷ rest) = (event_at k rest ≡ none) × KeysDistinct rest

event_at-put_event :
    (j k : ℕ) (e : AwsEvent) (events : Events)
    → event_at j (put_event k e events) ≡ (if eqb k j then some e else event_at j events)
unfolding put_event
event_at-put_event j k e [] = refl
event_at-put_event j k e ((i, x) ∷ rest) = ground (arith, event_at-put_event j k e rest)

put_event-KeysDistinct :
    (k : ℕ) (e : AwsEvent) (events : Events)
    → KeysDistinct events
    → KeysDistinct (put_event k e events)
unfolding put_event
put_event-KeysDistinct k e [] h = (refl, tt)
put_event-KeysDistinct k e ((i, x) ∷ rest) h = elim (Bool-cases (eqb i k)) [
  | inl q ↦ rw q (ground (arith, h.0), h.1)
  | inr q ↦
      rw q (ground (arith, h.0, event_at-put_event i k e rest), put_event-KeysDistinct k e rest h.1)
]

-- Read on each entry of a log, one after the other; the entry number `n` gets the n-th identifier.
module _ (unmarshal : String → Outcome (List (String × String))) (hash : AwsEvent → Outcome ℕ)
    (uuid : ℕ → String) where
  unfoldable pub read_all : ℕ → List LogEntry → Events → Outcome Events
  unfolding read
  read_all n [] events = ok events
  read_all n (entry ∷ entries) events =
      and_then (read unmarshal hash (uuid n) entry events)
        λ events'. read_all (suc n) entries events'

module _ (unmarshal : String → Outcome (List (String × String))) (hash : AwsEvent → Outcome ℕ)
    (uuid : ℕ → String) where
  -- An entry is read without failure where its conversion succeeds and hashes, or has no mapping.
  abbrev pub Readable : ℕ → LogEntry → Type 0
  Readable n entry =
      (try_convert_to_event unmarshal (uuid n) entry ≡ err no_mapping)
      ⊎ ((e : AwsEvent) × (k : ℕ) × (try_convert_to_event unmarshal (uuid n) entry ≡ ok e)
          × (hash e ≡ ok k))

  abbrev pub AllReadable : ℕ → List LogEntry → Type 0
  AllReadable n [] = Unit
  AllReadable n (entry ∷ entries) = Readable n entry × AllReadable (suc n) entries

  key_is : ℕ → Outcome ℕ → Bool
  key_is j (ok k) = eqb k j
  key_is j _ = false

  later_or : Option AwsEvent → Option AwsEvent → Option AwsEvent
  later_or none before = before
  later_or (some e) before = some e

  keep_of_key : ℕ → Outcome AwsEvent → Option AwsEvent
  unfolding key_is
  keep_of_key j (ok e) = if key_is j (hash e) then some e else none
  keep_of_key j _ = none

  -- The event of the last entry that is converted to an event of that hash.
  unfoldable pub last_of_key : ℕ → ℕ → List LogEntry → Option AwsEvent
  unfolding later_or keep_of_key
  last_of_key j n [] = none
  last_of_key j n (entry ∷ entries) =
      later_or (last_of_key j (suc n) entries)
        (keep_of_key j (try_convert_to_event unmarshal (uuid n) entry))

  Reads : ℕ → LogEntry → Events → Type 0
  Reads n entry events =
      (events' : Events) × (read unmarshal hash (uuid n) entry events ≡ ok events')
      × (KeysDistinct events → KeysDistinct events')
      × ((j : ℕ)
          → event_at j events'
            ≡ later_or (keep_of_key j (try_convert_to_event unmarshal (uuid n) entry))
                (event_at j events))

  read-Reads :
      (n : ℕ) (entry : LogEntry) (events : Events) → Readable n entry → Reads n entry events
  unfolding Reads read read_converted add_event keep_of_key key_is later_or
  read-Reads n entry events (inl e) = (events, rw e refl, λ d. d, λ j. rw e refl)
  read-Reads n entry events (inr (e, k, c, h)) = (
    put_event k e events,
    rw (c, h) refl,
    put_event-KeysDistinct k e events,
    λ j. rw (c, h) (ground (arith, event_at-put_event j k e events)),
  )

  later_or-none : (o : Option AwsEvent) → later_or o none ≡ o
  unfolding later_or
  later_or-none none = refl
  later_or-none (some e) = refl

  later_or_assoc : (a b c : Option AwsEvent) → later_or a (later_or b c) ≡ later_or (later_or a b) c
  unfolding later_or
  later_or_assoc none b c = refl
  later_or_assoc (some e) b c = refl

  read_all-later :
      (n : ℕ) (entries : List LogEntry) (events : Events)
      → AllReadable n entries
      → KeysDistinct events
      → (events' : Events) × (read_all unmarshal hash uuid n entries events ≡ ok events')
        × KeysDistinct events'
        × ((j : ℕ) → event_at j events' ≡ later_or (last_of_key j n entries) (event_at j events))
  unfolding read_all Reads last_of_key later_or
  read_all-later n [] events h d = (events, refl, d, λ j. refl)
  read_all-later n (entry ∷ entries) events h d =
      let (mid, e, keeps, at) = read-Reads n entry events h.0 in
      let (out, e', d', at') = read_all-later (suc n) entries mid h.1 (keeps d) in
      (
        out,
        rw e e',
        d',
        λ j.
            at' j
            ∙ ap (later_or (last_of_key j (suc n) entries)) (at j)
            ∙ later_or_assoc (last_of_key j (suc n) entries)
                (keep_of_key j (try_convert_to_event unmarshal (uuid n) entry)) (event_at j events),
      )

  -- Where every entry of a log can be read, reading them one after the other into a new aggregator
  -- succeeds: the aggregator then has no hash twice, and holds for each hash the event of the last entry that is converted
  -- to an event of that hash, and nothing for a hash of no entry.
  pub read_all-last_of_key :
      (n : ℕ) (entries : List LogEntry)
      → AllReadable n entries
      → (events : Events) × (read_all unmarshal hash uuid n entries [] ≡ ok events)
        × KeysDistinct events
        × ((j : ℕ) → event_at j events ≡ last_of_key j n entries)
  unfolding later_or
  read_all-last_of_key n entries h =
      let (events, e, d, at) = read_all-later n entries [] h tt in
      (events, e, d, λ j. at j ∙ later_or-none (last_of_key j n entries))
