-- ===== src/ControlPlane/Validate/Passed.antt =====
-- internal/controlplane/resolver.go: what a passed check says.
use anaysitics_service.Base.{String, Bool, true, false, ◌≡◌, ◌↔◌, ok, arith}
use anaysitics_service.ControlPlane.Validate.{require}

pub require_iff : (test : Bool) (message : String) → (require test message ≡ ok tt) ↔ (test ≡ true)
require_iff true message = ground arith
require_iff false message = (λ h. absurd (cc), λ h. absurd (cc))
