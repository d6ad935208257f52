-- ===== src/Cloudtrail.antt =====
-- pkg/cloudtrail: event_from_cloudtrail.go and aggregator.go.  Outside stand HashEvent's package
-- hashstructure, and json.Unmarshal into a map of texts.
pub mod Aggregated
pub mod Query
pub mod Scan
mod Tests
use iamzero.Prelude.{
  ℕ, suc, String, Bool, true, false, Option, none, some, List, [], ◌∷◌, ◌==◌, if◌then◌else◌, eqb,
  map,
}
use iamzero.Prelude.Outcome.{
  Outcome, ok, err, panic, no_mapping, nil_pointer, wrap, wrap_error, and_then, Error,
}
use iamzero.Recommendations.{AwsEvent, AwsIdentity, AwsData, str}

-- nil pointers are `none`.
pub record UserIdentity : Type 0 where
  pub principal_id : Option String
  pub arn : Option String
  pub account_id : Option String

pub record LogEntry : Type 0 where
  pub user_identity : UserIdentity
  pub event_time : Option String
  pub event_source : Option String
  pub event_name : Option String
  pub request_parameters : Option String

unfoldable pub safe_string_equals : Option String → String → Bool
safe_string_equals none b = false
safe_string_equals (some a) b = a == b

unfoldable pub dereference : Option String → Outcome String
dereference none = panic nil_pointer
dereference (some s) = ok s

-- params[name], "" where the map has no such key.
unfoldable pub parameter : String → List (String × String) → String
parameter name [] = ""
parameter name ((k, v) ∷ ps) = if k == name then v else parameter name ps

abbrev pub event_of : String → String → String → String → String → String → String → AwsEvent
event_of id operation bucket time user role account = record {
  id = id;
  time = time;
  identity = record { user = user; role = role; account = account };
  payload = record {
    type_name = "awsAction";
    service = "s3";
    region = "";
    operation = operation;
    parameters = some (("Bucket", str bucket) ∷ []);
    exception_message = "";
    exception_code = "";
  };
}

module _ (unmarshal : String → Outcome (List (String × String))) where
  -- The body that the two operations have in common.
  unfoldable pub s3_event : String → String → LogEntry → Outcome AwsEvent
  unfolding dereference parameter
  s3_event id operation c = and_then (dereference c.request_parameters) λ json.
      and_then (wrap_error "unmarshalling params" (unmarshal json)) λ params.
        and_then (dereference c.event_time) λ time.
          and_then (dereference c.user_identity.principal_id) λ user.
            and_then (dereference c.user_identity.arn) λ role.
              and_then (dereference c.user_identity.account_id) λ account.
                ok (event_of id operation (parameter "bucketName" params) time user role account)

  unfoldable pub try_convert_to_event : String → LogEntry → Outcome AwsEvent
  unfolding s3_event safe_string_equals
  try_convert_to_event id c =
      if safe_string_equals c.event_source "s3.amazonaws.com"
      then if safe_string_equals c.event_name "HeadObject"
        then s3_event id "HeadObject" c
        else if safe_string_equals c.event_name "ListObjects"
        then s3_event id "ListObjects" c
        else err no_mapping
      else err no_mapping

-- The map of an aggregator, by the hash of the event; a key stands in it once.
abbrev pub Events : Type 0
Events = List (ℕ × AwsEvent)

unfoldable pub put_event : ℕ → AwsEvent → Events → Events
put_event key e [] = (key, e) ∷ []
put_event key e ((k, x) ∷ rest) =
    if eqb k key then (key, e) ∷ rest else (k, x) ∷ put_event key e rest

abbrev pub get_events : Events → List AwsEvent
get_events events = map (λ kv. kv.1) events

module _ (unmarshal : String → Outcome (List (String × String))) (hash : AwsEvent → Outcome ℕ) where
  add_event : AwsEvent → Events → Outcome Events
  unfolding put_event
  add_event e events =
      and_then (wrap_error "hashing event" (hash e)) λ key. ok (put_event key e events)

  -- What Read does with the result of TryConvertToEvent.
  read_converted : Outcome AwsEvent → Events → Outcome Events
  unfolding add_event
  read_converted (ok e) events = add_event e events
  read_converted (err no_mapping) events = ok events
  read_converted (err e) events = err (wrap "converting event" e)
  read_converted (panic p) events = panic p

  -- `id` is the identifier that the event gets.
  unfoldable pub read : String → LogEntry → Events → Outcome Events
  unfolding read_converted try_convert_to_event
  read id entry events = read_converted (try_convert_to_event unmarshal id entry) events
