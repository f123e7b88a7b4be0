-- ===== src/ServerState/Methods/Parameters.antt =====
-- The methods of ServerState on configuration data (server/core/server_state.py).
use text.Mathlib.Text.{◌==◌ as str_eq}
use multi_daq.Prelude.{
  Bool, true, false, not, Option, none, some, ℕ, String, List, [], ◌∷◌, if◌then◌else◌, ◌==◌, ◌||◌,
  is_some,
}
use multi_daq.Prelude.Dict.{find, modify}
use multi_daq.ServerState.Records.{ClientId, HvParameters, ServerState}

abbrev newer : Option String → Option String → Option String
newer none old = old
newer (some v) old = some v

abbrev overwrite : HvParameters → HvParameters → HvParameters
overwrite p e = record {
  voltage = newer p.voltage e.voltage;
  threshold = newer p.threshold e.threshold;
  power_state = newer p.power_state e.power_state;
}

abbrev no_parameters : HvParameters
no_parameters = record { voltage = none; threshold = none; power_state = none }

-- `entry = hv_parameters.setdefault(ch, {})` and the assignments to it.
unfoldable pub set_channel : ℕ → HvParameters → List (ℕ × HvParameters) → List (ℕ × HvParameters)
set_channel ch p [] = (ch, overwrite p no_parameters) ∷ []
set_channel ch p ((c, e) ∷ m) =
    if c == ch then (c, overwrite p e) ∷ m else (c, e) ∷ set_channel ch p m

unfoldable pub set_channels :
    List (ℕ × HvParameters) → List (ℕ × HvParameters) → List (ℕ × HvParameters)
unfolding set_channel
set_channels [] m = m
set_channels ((ch, p) ∷ info) m = set_channels info (set_channel ch p m)

-- `set_client_hv_parameters`
unfoldable pub set_client_hv_parameters :
    ClientId → List (ℕ × HvParameters) → ServerState → ServerState
set_client_hv_parameters k info s = record s {
  clients =
      modify k (λ r. record r { hv_parameters = set_channels info r.hv_parameters }) s.clients;
}

-- `set_calibration_excluded_channels`
unfoldable pub set_calibration_excluded_channels : ClientId → List ℕ → ServerState → ServerState
set_calibration_excluded_channels k channels s = record s {
  clients = modify k (λ r. record r { calibration_excluded_channels = channels }) s.clients;
}

-- `set_configuration_identity`
unfoldable pub set_configuration_identity :
    ClientId → String → String → ServerState → ServerState × Bool
set_configuration_identity k multipmt_id batch_id s =
    if str_eq multipmt_id "" || str_eq batch_id "" || not (is_some (find k s.clients))
    then (s, false)
    else (
      record s {
        clients =
            modify k (λ r. record r { configuration_identity = some (multipmt_id, batch_id) })
              s.clients;
      },
      true,
    )
