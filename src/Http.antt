-- ===== src/Http.antt =====
-- api/io: errors.go, response.go and decode_body.go.  Package encoding/json reads a request's body
-- first: a request holds what it found.  `P` is what a handler sends as JSON on success.
pub mod Errors
use iamzero.Prelude.{ℕ, String, Bool, true, false, not, List, [], ◌∷◌, ◌==◌, if◌then◌else◌, eqb}
use iamzero.Prelude.Text.{◌<>◌}
use iamzero.Prelude.Outcome.{
  Error, plain, request_error, wrap, Outcome, ok, err, panic, and_then, Exec,
}

-- What is written after the header: JSON of a payload or of an ErrorResponse, a text, or nothing.
pub data Body (P : Type 0) : Type 0 where
  payload : P → Body P
  error_response : String → Body P
  text : String → Body P
  no_body : Body P

pub record Response (P : Type 0) : Type 0 where
  pub status : ℕ
  pub body : Body P

-- A handler's responses, in order: a correct one writes one.
abbrev pub Handler : Type 0 → Type 0 → Type 0
Handler S P = Exec S (List (Response P))

-- Cause of github.com/pkg/errors.
unfoldable pub cause : Error → Error
cause (wrap m e) = cause e
cause e = e

abbrev pub json_response : {P : Type 0} → Body P → ℕ → Response P
json_response b status = record { status = status; body = if eqb status 204 then no_body else b }

unfoldable pub respond_json : {P : Type 0} → P → ℕ → Response P
respond_json p status = json_response (payload p) status

abbrev pub respond_text : {P : Type 0} → String → ℕ → Response P
respond_text t status = record { status = status; body = text t }

-- http.Error, which ends the text with a line break.
abbrev pub http_error : {P : Type 0} → String → ℕ → Response P
http_error t status = record { status = status; body = text (t <> "\n") }

error_of_cause : {P : Type 0} → Error → Response P
error_of_cause (request_error m status) = json_response (error_response m) status
error_of_cause e = json_response (error_response "Internal Server Error") 500

unfoldable pub respond_error : {P : Type 0} → Error → Response P
unfolding error_of_cause cause
respond_error e = error_of_cause (cause e)

abbrev pub after_or_respond :
    {S A P : Type 0} → Outcome A × S → (A → Handler S P) → Outcome (List (Response P)) × S
after_or_respond (ok a, s) k = k a s
after_or_respond (err e, s) k = (ok (respond_error e ∷ []), s)
after_or_respond (panic p, s) k = (panic p, s)

-- `if err != nil { io.RespondError(...); return }` after a call.
abbrev pub or_respond : {S A P : Type 0} → Exec S A → (A → Handler S P) → Handler S P
or_respond m k s = after_or_respond (m s) k

abbrev pub respond : {S P : Type 0} → Response P → Handler S P
respond r s = (ok (r ∷ []), s)

-- How Decode failed.  Positions and quoted fields are as package fmt prints them.
pub data DecodeFailure : Type 0 where
  syntax_error : String → DecodeFailure
  unexpected_eof : DecodeFailure
  unmarshal_type_error : String → String → DecodeFailure
  unknown_field : String → DecodeFailure
  eof : DecodeFailure
  body_too_large : DecodeFailure
  other_failure : Error → DecodeFailure

pub data Decoded (A : Type 0) : Type 0 where
  decoded : A → Decoded A
  not_decoded : DecodeFailure → Decoded A

-- `at_end`: the second Decode returns io.EOF.
pub record RequestBody (A : Type 0) : Type 0 where
  pub content_type : String
  pub first : Decoded A
  pub at_end : Bool

decode_failed : DecodeFailure → Error
decode_failed (syntax_error position) =
    request_error ("Request body contains badly-formed JSON (at position " <> position <> ")") 400
decode_failed unexpected_eof = request_error "Request body contains badly-formed JSON" 400
decode_failed (unmarshal_type_error field position) =
    request_error
      ("Request body contains an invalid value for the " <> field <> " field (at position "
        <> position <> ")")
      400
decode_failed (unknown_field name) =
    request_error ("Request body contains unknown field " <> name) 400
decode_failed eof = request_error "Request body must not be empty" 400
decode_failed body_too_large = request_error "Request body must not be larger than 1MB" 413
decode_failed (other_failure e) = e

decode_end : {A : Type 0} → Decoded A → Bool → Outcome A
unfolding decode_failed
decode_end (not_decoded f) at_end = err (decode_failed f)
decode_end (decoded a) true = ok a
decode_end (decoded a) false =
    err (request_error "Request body must only contain a single JSON object" 400)

unfoldable pub decode_json_body : {A : Type 0} → RequestBody A → Outcome A
unfolding decode_end
decode_json_body r =
    if r.content_type == "application/json"
    then decode_end r.first r.at_end
    else err (request_error "Content-Type header is not application/json" 415)
