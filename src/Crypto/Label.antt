-- ===== src/Crypto/Label.antt =====
-- crates/otap-crypto/src/lib.rs: `SharedSecret::test_from_label`, over SHA-256 as a parameter.
use otap_signup_validator.Common.{ℕ, List, ◌++◌}
use otap_signup_validator.Crypto.Secret.{SharedSecret}
use otap_signup_validator.Crypto.Trajectory.{ascii}

-- `SharedSecret::test_from_label`
unfoldable pub test_from_label : (List ℕ → List ℕ) → List ℕ → SharedSecret
test_from_label sha256 label = record { bytes = sha256 (ascii "OTAP-TEST-KEY-" ++ label) }
