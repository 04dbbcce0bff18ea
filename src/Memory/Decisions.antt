-- ===== src/Memory/Decisions.antt =====
-- apps/control-plane/internal/store/memory.go: `SaveDecision`, `GetCertificate`, `SaveCertificate`.
use epistemic_engine.Prelude.{String, none, some}
use epistemic_engine.Go.Effect.{not_found, Result, ok, err, or_error, Exec}
use epistemic_engine.Go.Map.{lookup, insert}
use epistemic_engine.Domain.Run.{Decision}
use epistemic_engine.Domain.Certificate.{Certificate}
use epistemic_engine.Memory.State.{Memory}

unfoldable pub save_decision : Decision → Exec Memory (Unit {0})
save_decision d m = elim (lookup d.id m.decisions) [
  | none ↦ (err not_found, m)
  | some old ↦ (ok tt, record m { decisions = insert d.id d m.decisions })
]

unfoldable pub get_certificate : String → Memory → Result Certificate
get_certificate id m = or_error not_found (lookup id m.certificates)

-- A certificate that is there stays, and the call succeeds.
unfoldable pub save_certificate : Certificate → Exec Memory (Unit {0})
save_certificate c m = elim (lookup c.decision_id m.certificates) [
  | some old ↦ (ok tt, m)
  | none ↦ (ok tt, record m { certificates = insert c.decision_id c m.certificates })
]
