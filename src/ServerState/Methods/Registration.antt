-- ===== src/ServerState/Methods/Registration.antt =====
-- The methods of ServerState that register and remove clients (server/core/server_state.py).
use text.Mathlib.Text.{◌==◌ as str_eq}
use multi_daq.Prelude.{
  Bool, true, false, not, Option, none, some, ℕ, String, if◌then◌else◌, ◌||◌, is_some,
}
use multi_daq.Prelude.Dict.{Dict, find, insert, erase, modify, update_where}
use multi_daq.ServerState.Records.{ClientId, Identity, ClientRecord, ServerState, new_record}

abbrev pub on_control : ClientRecord → ClientRecord
on_control r = record r { on_control_plane = true }

abbrev pub identified : Option Identity → ClientRecord → ClientRecord
identified none r = r
identified (some i) r = record r { identity = some i }

-- The MAC address of an identity, if it has one that is not empty.
abbrev pub mac_of : Option Identity → Option String
mac_of none = none
mac_of (some i) = elim (find "mac_address" i) [
  | none ↦ none
  | some mac ↦ if str_eq mac "" then none else some mac
]

-- The index of MAC addresses, when a client that has one is registered.
unfoldable pub note_mac : Option String → ClientId → Dict ClientId → Dict ClientId
note_mac none k m = m
note_mac (some mac) k m = insert mac k m

-- `add_control_client`
unfoldable pub add_control_client :
    ClientId → Option Identity → ℕ → ServerState → Option ServerState
add_control_client k identity now s =
    let known =
      if is_some (find k s.clients) then s.clients else insert k (new_record now) s.clients in
    let added = modify k (λ r. identified identity (on_control r)) known in
    if str_eq k ""
    then none
    else some (record s {
      clients = added;
      client_id_by_mac = note_mac (mac_of identity) k s.client_id_by_mac;
    })

abbrev pub off_acquisition : ClientRecord → ClientRecord
off_acquisition r = record r { on_acquisition_plane = false; operational = false }

-- `remove_acquisition_client`
unfoldable pub remove_acquisition_client : ClientId → ServerState → ServerState
remove_acquisition_client k s = record s { clients = modify k off_acquisition s.clients }

abbrev pub clear_acquisition : ClientRecord → ClientRecord
clear_acquisition r = if r.on_acquisition_plane then off_acquisition r else r

-- `clear_acquisition_clients`
unfoldable pub clear_acquisition_clients : ServerState → ServerState
clear_acquisition_clients s = record s {
  clients = update_where (λ k. true) clear_acquisition s.clients;
}

-- Whether a client is registered on the control plane, as the other planes want it.
unfoldable pub is_on_control : ClientId → ServerState → Bool
is_on_control k s = elim (find k s.clients) [ none ↦ false | some r ↦ r.on_control_plane ]

-- `add_acquisition_client`
unfoldable pub add_acquisition_client : ClientId → ServerState → Option ServerState
add_acquisition_client k s =
    if str_eq k "" || not (is_on_control k s)
    then none
    else some
        (record s { clients = modify k (λ r. record r { on_acquisition_plane = true }) s.clients })

-- `add_monitoring_client`
unfoldable pub add_monitoring_client : ClientId → ServerState → Option ServerState
add_monitoring_client k s =
    if str_eq k "" || not (is_on_control k s)
    then none
    else some
        (record s { clients = modify k (λ r. record r { on_monitoring_plane = true }) s.clients })

-- `remove_monitoring_client`
unfoldable pub remove_monitoring_client : ClientId → ServerState → ServerState
remove_monitoring_client k s = record s {
  clients = modify k (λ r. record r { on_monitoring_plane = false }) s.clients;
}

-- `clear_monitoring_clients`
unfoldable pub clear_monitoring_clients : ServerState → ServerState
clear_monitoring_clients s = record s {
  clients = update_where (λ k. true) (λ r. record r { on_monitoring_plane = false }) s.clients;
}

abbrev pub identity_of : Option ClientRecord → Option Identity
identity_of none = none
identity_of (some r) = r.identity

abbrev pub registered_mac : Option Identity → Option String
registered_mac none = none
registered_mac (some i) = find "mac_address" i

abbrev pub owned_by : ClientId → Option ClientId → Bool
owned_by k none = false
owned_by k (some j) = str_eq j k

-- The index, when a client is forgotten: the entry goes if it is the client's own.
unfoldable pub forget_mac : Option String → ClientId → Dict ClientId → Dict ClientId
forget_mac none k m = m
forget_mac (some mac) k m = if owned_by k (find mac m) then erase mac m else m

-- `_forget_client_locked`, which `remove_client` and `remove_control_client` call.
unfoldable pub remove_client : ClientId → ServerState → ServerState
remove_client k s = record s {
  clients = erase k s.clients;
  client_id_by_mac =
      forget_mac (registered_mac (identity_of (find k s.clients))) k s.client_id_by_mac;
}
