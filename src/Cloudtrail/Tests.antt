-- ===== src/Cloudtrail/Tests.antt =====
-- A log of two entries of one event, and one of another service.
use iamzero.Prelude.{ℕ, String, ◌≡◌, refl, some, List, [], ◌∷◌, inl, inr}
use iamzero.Prelude.Outcome.{Outcome, ok}
use iamzero.Recommendations.{AwsEvent}
use iamzero.Cloudtrail.{
  LogEntry, Events, event_of, safe_string_equals, dereference, parameter, s3_event,
  try_convert_to_event,
}
use iamzero.Cloudtrail.Aggregated.{
  AllReadable, KeysDistinct, read_all, event_at, last_of_key, read_all-last_of_key,
}
use iamzero.Samples.{nth_id}

abbrev unmarshal : String → Outcome (List (String × String))
unmarshal s = ok (("bucketName", s) ∷ [])

-- One key for every event.
abbrev hash : AwsEvent → Outcome ℕ
hash e = ok 7

abbrev entry : String → LogEntry
entry source = record {
  user_identity = record { principal_id = some "p"; arn = some "a"; account_id = some "1" };
  event_time = some "t";
  event_source = some source;
  event_name = some "HeadObject";
  request_parameters = some "bucket";
}

abbrev entries : List LogEntry
entries = entry "s3.amazonaws.com" ∷ entry "ec2.amazonaws.com" ∷ entry "s3.amazonaws.com" ∷ []

readable : AllReadable unmarshal hash nth_id 0 entries
unfolding try_convert_to_event safe_string_equals s3_event dereference parameter
readable = (
  inr (event_of "a" "HeadObject" "bucket" "t" "p" "a" "1", 7, refl, refl),
  (inl refl, (inr (event_of "c" "HeadObject" "bucket" "t" "p" "a" "1", 7, refl, refl), tt)),
)

read_all_example :
    (events : Events) × (read_all unmarshal hash nth_id 0 entries [] ≡ ok events)
    × KeysDistinct events
    × ((j : ℕ) → event_at j events ≡ last_of_key unmarshal hash nth_id j 0 entries)
read_all_example = read_all-last_of_key unmarshal hash nth_id 0 entries readable
