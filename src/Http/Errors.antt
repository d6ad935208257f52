-- ===== src/Http/Errors.antt =====
-- What a client is told of an error, and when a body is accepted.
use iamzero.Prelude.{
  ℕ, String, Bool, true, false, ◌≡◌, ◌≢◌, refl, ap, ◌∙◌, ◌==◌, eq_iff, Bool-cases, inl, inr, ◌⊎◌,
  ltb, leb, ◌&&◌,
}
use iamzero.Prelude.Outcome.{
  Error, plain, request_error, wrap, token_not_found, no_mapping, ok, err,
}
use iamzero.Http.{
  Response, cause, respond_error, error_response, error_of_cause, RequestBody, Decoded, decoded,
  not_decoded, other_failure, DecodeFailure, decode_failed, decode_end, decode_json_body,
  syntax_error, unexpected_eof, unmarshal_type_error, unknown_field, eof, body_too_large,
}

-- No error below the wrapping is one with a status.
abbrev pub IsOpaque : Error → Type 0
IsOpaque e = (m : String) (status : ℕ) → cause e ≢ request_error m status

abbrev pub internal_error : {P : Type 0} → Response P
internal_error = record { status = 500; body = error_response "Internal Server Error" }

error_of_cause-opaque :
    {P : Type 0}
    → (e : Error) → ((m : String) (status : ℕ) → e ≢ request_error m status)
    → error_of_cause {P = P} e ≡ internal_error
unfolding error_of_cause
error_of_cause-opaque (plain m) h = refl
error_of_cause-opaque (request_error m status) h = absurd (h m status refl)
error_of_cause-opaque token_not_found h = refl
error_of_cause-opaque no_mapping h = refl
error_of_cause-opaque (wrap m e) h = refl

-- However often an error is wrapped, the client is told the same: the message and the status of
-- an error that has one (no body with 204), and an opaque 500 for every other error.
pub respond_error_lem :
    {P : Type 0}
    → (e : Error)
    → ((m : String) → respond_error {P = P} (wrap m e) ≡ respond_error e)
      × ((m : String) (status : ℕ)
          → cause e ≡ request_error m status
          → (respond_error {P = P} e).status ≡ status)
      × (IsOpaque e → respond_error {P = P} e ≡ internal_error)
unfolding respond_error error_of_cause cause
respond_error_lem e = (λ m. refl, λ m status h. rw h refl, λ h. error_of_cause-opaque (cause e) h)

-- The errors that a client caused.
abbrev pub IsClientError : Error → Type 0
IsClientError e =
    (m : String) × (status : ℕ) × (e ≡ request_error m status)
    × ((leb 400 status && ltb status 500) ≡ true)

-- What Decode found wrong with the body itself.
abbrev pub IsOther : DecodeFailure → Type 0
IsOther f = (e : Error) × (f ≡ other_failure e)

decode_failed-IsClientError : (f : DecodeFailure) → IsOther f ⊎ IsClientError (decode_failed f)
unfolding decode_failed
decode_failed-IsClientError (syntax_error p) = inr (_, 400, refl, refl)
decode_failed-IsClientError unexpected_eof = inr (_, 400, refl, refl)
decode_failed-IsClientError (unmarshal_type_error f p) = inr (_, 400, refl, refl)
decode_failed-IsClientError (unknown_field n) = inr (_, 400, refl, refl)
decode_failed-IsClientError eof = inr (_, 400, refl, refl)
decode_failed-IsClientError body_too_large = inr (_, 413, refl, refl)
decode_failed-IsClientError (other_failure e) = inl (e, refl)

-- A body is accepted exactly where its content type is JSON, it decodes, and nothing follows.
abbrev pub Accepts : {A : Type 0} → RequestBody A → A → Type 0
Accepts r a = (r.content_type ≡ "application/json") × (r.first ≡ decoded a) × (r.at_end ≡ true)

decode_json_body-first :
    {A : Type 0}
    → (r : RequestBody A) (first : Decoded A) (at_end : Bool) → r.first ≡ first
    → r.at_end ≡ at_end
    → (r.content_type == "application/json") ≡ true
    → ((a : A) × Accepts r a × (decode_json_body r ≡ ok a))
      ⊎ (((e : Error) × (r.first ≡ not_decoded (other_failure e)) × (decode_json_body r ≡ err e))
          ⊎ ((e : Error) × (decode_json_body r ≡ err e) × IsClientError e))
unfolding decode_json_body decode_end
decode_json_body-first r (decoded a) true f t q =
    inl (a, ((eq_iff _ _).0 q, f, t), rw (q, f, t) refl)
decode_json_body-first r (decoded a) false f t q = inr (
    inr (
      request_error "Request body must only contain a single JSON object" 400,
      rw (q, f, t) refl,
      (_, 400, refl, refl),
    ))
decode_json_body-first r (not_decoded x) b f t q = elim (decode_failed-IsClientError x) [
  | inl (e, o) ↦ inr (inl (e, f ∙ ap not_decoded o, rw (q, f, o) (unfold decode_failed in refl)))
  | inr c ↦ inr (inr (decode_failed x, rw (q, f) refl, c))
]

-- DecodeJSONBody either accepts the body, and then returns what it decodes to, or fails with the
-- error that Decode itself met in a body of JSON, or blames the client with a status from 400 to
-- 499.
pub decode_json_body_lem :
    {A : Type 0}
    → (r : RequestBody A)
    → ((a : A) × Accepts r a × (decode_json_body r ≡ ok a))
      ⊎ (((e : Error) × (r.first ≡ not_decoded (other_failure e)) × (decode_json_body r ≡ err e))
          ⊎ ((e : Error) × (decode_json_body r ≡ err e) × IsClientError e))
unfolding decode_json_body
decode_json_body_lem r = elim (Bool-cases (r.content_type == "application/json")) [
  | inr q ↦ inr (
      inr (
        request_error "Content-Type header is not application/json" 415,
        rw q refl,
        (_, 415, refl, refl),
      ))
  | inl q ↦ decode_json_body-first r r.first r.at_end refl refl q
]
