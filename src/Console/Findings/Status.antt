-- ===== src/Console/Findings/Status.antt =====
-- SetFindingStatus and the queries of the console over the in-memory storage.
use iamzero.Prelude.{
  String, ◌≡◌, ◌≢◌, refl, true, false, none, some, List, [], ◌∷◌, arith, eq_iff, Bool-cases,
  Option-cases, inl, inr, ◌⊎◌,
}
use iamzero.Prelude.Outcome.{Outcome, ok, err, Error}
use iamzero.Recommendations.{Finding}
use iamzero.Recommendations.Findings.{finding_status_is_valid}
use iamzero.Storage.Memory.{Memory, in_memory, get_finding}
use iamzero.Storage.Memory.Lookup.{get_finding-put_finding}
use iamzero.Http.{RequestBody, Response, respond_json, respond_error, http_error, decode_json_body}
use iamzero.Http.Errors.{decode_json_body_lem}
use iamzero.Console.Findings.{set_finding_status, write_status, written, bad_status}

-- What SetFindingStatus promises over the in-memory storage.
abbrev pub SetsStatus :
    String → RequestBody String → Memory → Outcome (List (Response Finding)) × Memory → Type 0
SetsStatus id body m r =
    ((e : Error) × (decode_json_body body ≡ err e) × (r ≡ (ok (respond_error e ∷ []), m)))
    ⊎ ((status : String) × (decode_json_body body ≡ ok status)
        × (((finding_status_is_valid status ≡ false) × (r ≡ (ok (bad_status ∷ []), m)))
            ⊎ (((finding_status_is_valid status ≡ true)
                  × (get_finding id m.findings ≡ none)
                  × (r ≡ (ok (http_error "finding not found" 404 ∷ []), m)))
                ⊎ ((f : Finding) × (finding_status_is_valid status ≡ true)
                    × (get_finding id m.findings ≡ some f)
                    × (r.0 ≡ ok (respond_json (record f { status = status }) 200 ∷ []))
                    × (get_finding id r.1.findings ≡ some (record f { status = status }))
                    × ((j : String)
                        → j ≢ id
                        → get_finding j r.1.findings ≡ get_finding j m.findings)
                    × (r.1.actions ≡ m.actions)))))

get_finding-id :
    (id : String) (fs : List Finding) (f : Finding) → get_finding id fs ≡ some f → f.id ≡ id
unfolding get_finding
get_finding-id id [] f e = cc
get_finding-id id (g ∷ gs) f e = ground (arith, eq_iff g.id id, get_finding-id id gs f)

decoded-SetsStatus :
    (id status : String) (body : RequestBody String) (m : Memory)
    → decode_json_body body ≡ ok status
    → SetsStatus id body m (set_finding_status in_memory id body m)
unfolding set_finding_status write_status written
decoded-SetsStatus id status body m d = inr (
  status,
  d,
  elim (Bool-cases (finding_status_is_valid status)) [
    | inr v ↦ inl (v, rw (d, v) refl)
    | inl v ↦ inr (elim (Option-cases (get_finding id m.findings)) [
      | inl g ↦ inl (v, g, rw (d, v, g) refl)
      | inr (f, g) ↦
          let i = get_finding-id id m.findings f g in
          let reads =
            λ (j : String). get_finding-put_finding j (record f { status = status }) m.findings in
          inr (
            f,
            v,
            g,
            rw (d, v, g) refl,
            rw (d, v, g) (ground (arith, reads id, eq_iff f.id id)),
            λ j ne. rw (d, v, g) (ground (arith, reads j, eq_iff f.id j)),
            rw (d, v, g) refl,
          )
    ])
  ],
)

-- SetFindingStatus over the in-memory storage writes one answer.  It is the error's for a body that
-- is refused, 400 for a status other than active and resolved, 404 for a finding that is not
-- there, and 200 with the finding of the new status otherwise, which Get then returns, while Get
-- of every other identifier and the actions are as before; no refusal changes the storage.
pub set_finding_status-SetsStatus :
    (id : String) (body : RequestBody String) (m : Memory)
    → SetsStatus id body m (set_finding_status in_memory id body m)
unfolding set_finding_status
set_finding_status-SetsStatus id body m = elim (decode_json_body_lem body) [
  | inl (status, _, d) ↦ decoded-SetsStatus id status body m d
  | inr (inl (e, _, d)) ↦ inl (e, d, rw d refl)
  | inr (inr (e, d, _)) ↦ inl (e, d, rw d refl)
]
