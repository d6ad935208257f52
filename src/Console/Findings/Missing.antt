-- ===== src/Console/Findings/Missing.antt =====
-- The console's answer for a finding that is not there, with each of two storages.
use iamzero.Prelude.{String, ◌≡◌, refl, ap, ◌∙◌, none, [], ◌∷◌}
use iamzero.Prelude.Outcome.{ok, err, Error}
use iamzero.Recommendations.{Finding}
use iamzero.Storage.Memory
use iamzero.Storage.Memory.{in_memory}
use iamzero.Storage.Bolt.{Db, bolt}
use iamzero.Storage.Bolt.Contract.{bolt_get_finding-fails}
use iamzero.Http.{Response, http_error}
use iamzero.Http.Errors.{IsOpaque, internal_error, respond_error_lem}
use iamzero.Console.Findings

-- For an identifier that no finding has, GetFinding answers 404 over the in-memory storage.  Over
-- Bolt, where One fails with an error that has no HTTP status, it answers an opaque 500.
pub get_finding-none :
    {S : Type 0}
    → (id : String) (m : Memory.Memory) (db : Db S) (s s' : S) (e : Error)
    → Memory.get_finding id m.findings ≡ none
    → db.findings.one id s ≡ (err e, s')
    → IsOpaque e
    → (Findings.get_finding in_memory id m ≡ (ok (http_error "policy not found" 404 ∷ []), m))
      × (Findings.get_finding (bolt db) id s ≡ (ok (internal_error ∷ []), s'))
unfolding Findings.get_finding Findings.found_or_not bolt
get_finding-none id m db s s' e none_there fails opaque = (
  rw none_there refl,
  rw (bolt_get_finding-fails db id s s' e fails) (
      ap (λ (r : Response Finding). (ok (r ∷ []), s'))
        ((respond_error_lem e).0 "boltdb get finding" ∙ (respond_error_lem e).2 opaque)),
)
