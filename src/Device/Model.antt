-- ===== src/Device/Model.antt =====
-- device/model.py: the models and their constants.
use tsanet.Prelude.{ℕ, String, Option, List, [], ◌∷◌}

pub data Model : Type 0 where
  ultra basic : Model

-- `FRAMEBUFFER[model]`
unfoldable pub framebuffer : Model → ℕ × ℕ
framebuffer ultra = (480, 320)
framebuffer basic = (320, 280)

abbrev pub valid_calc : List String
valid_calc = "off" ∷ "minh" ∷ "maxh" ∷ "maxd" ∷ "aver4" ∷ "aver16" ∷ "aver" ∷ "quasi" ∷ []

abbrev pub valid_units : List String
valid_units = "RAW" ∷ "dBm" ∷ "dBmV" ∷ "dBuV" ∷ "V" ∷ "Vpp" ∷ "W" ∷ []

pub record DeviceInfo : Type 0 where
  pub model_string : String
  pub model : Model
  pub firmware : Option String
  pub hardware : String
