-- ===== src/Health.antt =====
-- pkg/healthcheck/handler.go.
mod Tests
use iamzero.Prelude.{
  ℕ, ◌-◌, String, Bool, true, false, ◌&&◌, not, List, [], ◌∷◌, ltb, if◌then◌else◌,
}
use iamzero.Prelude.Outcome.{Outcome, ok, panic, status_code}
use iamzero.Recommendations.{Time}

pub data Status : Type 0 where
  unavailable ready broken : Status

unfoldable pub status_string : Status → String
status_string unavailable = "unavailable"
status_string ready = "ready"
status_string broken = "broken"

pub record State : Type 0 where
  pub status : Status
  pub up_since : Time

-- `up_since` and `uptime` as the body shows them; 0 is the zero time.
pub record HealthCheckResponse : Type 0 where
  pub status_code : ℕ
  pub status_msg : String
  pub up_since : Time
  pub uptime : ℕ

unfoldable pub new : State
new = record { status = unavailable; up_since = 0 }

abbrev pub is_ready : Status → Bool
is_ready ready = true
is_ready _ = false

-- `now` is what time.Now returns.
unfoldable pub set : Time → Status → State → State
set now status old =
    if is_ready status && not (is_ready old.status)
    then record { status = status; up_since = now }
    else record { status = status; up_since = 0 }

unfoldable pub get : State → Status
get s = s.status

-- hc.responses: a status that is missing has the zero response.
responses : Status → HealthCheckResponse
responses unavailable = record {
  status_code = 503;
  status_msg = "Server not available";
  up_since = 0;
  uptime = 0;
}
responses ready = record {
  status_code = 200;
  status_msg = "Server available";
  up_since = 0;
  uptime = 0;
}
responses broken = record { status_code = 0; status_msg = ""; up_since = 0; uptime = 0 }

create_resp_body : Time → State → HealthCheckResponse → HealthCheckResponse
create_resp_body now s template =
    if is_ready s.status
    then record template { up_since = s.up_since; uptime = now - s.up_since }
    else template

-- WriteHeader panics on a code below 100.
unfoldable pub handle : Time → State → Outcome HealthCheckResponse
unfolding responses create_resp_body
handle now s =
    let template = responses s.status in
    if ltb template.status_code 100 then panic status_code else ok (create_resp_body now s template)
