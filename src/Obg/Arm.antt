-- ===== src/Obg/Arm.antt =====
-- crates/otap-obg/src/lib.rs: `arm_register_file`.
use otap_signup_validator.Common.{ℕ, List, Bool, bit_or, ◌>>=◌, map_err, if◌then◌else◌}
use otap_signup_validator.Common.Int.{pos}
use otap_signup_validator.Core.Float.{Float32}
use otap_signup_validator.Core.Dimensions.{Wavelength}
use otap_signup_validator.Csr.Registers.{
  RegisterFile, ctrl_enable_tx, ctrl_enable_rx, ctrl_auth_topological,
}
use otap_signup_validator.Csr.Writer.{
  set_wavelength, set_secret, set_ctrl, set_auth_tolerance, set_schema_payload, set_oam_to_schema,
}
use otap_signup_validator.Schema.EquityOrder.{order_oam_mode, order_payload_bytes}
use otap_signup_validator.Schema.MarketTick.{tick_oam_mode, tick_payload_bytes}
use otap_signup_validator.Schema.Heartbeat.{heartbeat_oam_mode, heartbeat_payload_bytes}
use otap_signup_validator.Obg.Queues.{ObgResult, csr}

abbrev pub arm_ctrl : Bool → ℕ
arm_ctrl topological_auth =
    bit_or (bit_or ctrl_enable_tx ctrl_enable_rx)
      (if topological_auth then ctrl_auth_topological else 0)

-- The three schemas that `arm_register_file` registers, as ids 1, 2 and 3.
unfoldable pub register_schemas : RegisterFile → ObgResult RegisterFile
register_schemas rf = do
  rf₁ ← map_err csr (set_schema_payload rf 1 order_payload_bytes)
  rf₂ ← map_err csr (set_schema_payload rf₁ 2 tick_payload_bytes)
  rf₃ ← map_err csr (set_schema_payload rf₂ 3 heartbeat_payload_bytes)
  rf₄ ← map_err csr (set_oam_to_schema rf₃ order_oam_mode 1)
  rf₅ ← map_err csr (set_oam_to_schema rf₄ tick_oam_mode 2)
  map_err csr (set_oam_to_schema rf₅ heartbeat_oam_mode 3)

-- `arm_register_file`
unfoldable pub arm_register_file :
    (F : Type 0) ⦃fl : Float32 F⦄
    → RegisterFile
    → Wavelength
    → List ℕ
    → Bool
    → ObgResult RegisterFile
arm_register_file F ⦃fl⦄ rf wavelength secret_bytes topological_auth = do
  rf₁ ← map_err csr (set_wavelength rf wavelength)
  rf₂ ← map_err csr (set_secret rf₁ secret_bytes)
  rf₃ ← map_err csr (set_ctrl rf₂ (arm_ctrl topological_auth))
  rf₄ ← map_err csr (set_auth_tolerance {F = F} rf₃ (fl.literal (pos 1) 2))
  register_schemas rf₄
