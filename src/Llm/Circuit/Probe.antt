-- ===== src/Llm/Circuit/Probe.antt =====
-- internal/agent/llm.go: what follows the cooldown of `circuitModel`.
use cadenza.Prelude.{ℕ, ◌<◌, ◌≡◌, true, arith}
use cadenza.Llm.{Request, Model}
use cadenza.Llm.Circuit.{Circuit, admit, is_failure, passed_on, circuit_generate}

-- After the cooldown one request is let through, and although it fails the circuit stays closed
-- with one failure counted, if its threshold is 2 or more: the next request is let through too,
-- at any time.
pub failed_probe_closes :
    {S : Type 0} (before after later : ℕ) (m : Model S) (req : Request) (c : Circuit) (s : S)
    → c.is_open ≡ true
    → c.cooldown_until < before
    → 1 < c.threshold
    → is_failure (m req s).0 ≡ true
    → let (a, (c', s')) = circuit_generate before after m req (c, s) in
      (a ≡ passed_on (m req s).0) × (c'.failures ≡ 1) × ((admit later c').0 ≡ true)
unfolding circuit_generate
failed_probe_closes before after later m req c s o past t f = ground arith
