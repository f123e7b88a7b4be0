-- ===== src/Hv/Commands.antt =====
-- The commands of HV on a list of channels (client/hardware/hv/hv_interface.py). What the Modbus
-- library answers is a parameter: whether the n-th access to a channel goes through or raises. The
-- values that a command writes or reads are left out, and so is the attempt of `on` to switch a channel
-- off that could not be switched on.
use multi_daq.Prelude.{
  Bool, not, Option, none, some, map_option, ℕ, suc, List, [], ◌∷◌, if◌then◌else◌, select, leb,
  ◌&&◌,
}
use multi_daq.Prelude.Numbers.{has}
use multi_daq.Channels.Definitions.{ChannelsArg, hv_channels_definition}
use multi_daq.Board.Access.{num_channels}
use multi_daq.Hv.Lists.{
  Hv, move_to_ok, move_to_bad, move_to_on, move_to_off, replace_fixed_bad, Status, status_string,
}

-- The default of `hv_channels_definition`.
abbrev pub n_channels : ℕ
n_channels = 7

-- The lists that a loop over channels builds, and the state that it leaves.
pub record Outcome : Type 0 where
  pub state : Hv
  pub successful : List ℕ
  pub failed : List ℕ

-- The loop: a channel that answers is moved by `move`, one that raises becomes BAD.
unfoldable pub run_channels : (ℕ → Hv → Hv) → (ℕ → Bool) → ℕ → List ℕ → Hv → Outcome
run_channels move answers n [] s = record { state = s; successful = []; failed = [] }
run_channels move answers n (ch ∷ chs) s =
    let o =
      run_channels move answers (suc n) chs (if answers n then move ch s else move_to_bad ch s) in
    record {
      state = o.state;
      successful = if answers n then ch ∷ o.successful else o.successful;
      failed = if answers n then o.failed else ch ∷ o.failed;
    }

-- The channel lists of a reply.
pub record Reply : Type 0 where
  pub requested_channels : List ℕ
  pub used_channels : List ℕ
  pub skipped_channels : List ℕ
  pub outcome : Outcome

-- A command that works on the OK channels among the requested ones.
unfoldable pub on_ok_channels : (ℕ → Hv → Hv) → (ℕ → Bool) → List ℕ → Hv → Reply
on_ok_channels move answers requested s =
    let used = select (λ ch. has ch s.ok_ch) requested in
    record {
      requested_channels = requested;
      used_channels = used;
      skipped_channels = select (λ ch. not (has ch s.ok_ch)) requested;
      outcome = run_channels move answers 0 used s;
    }

-- A command that works on every requested channel. The source's reply has no lists of used and skipped
-- channels: all are used here.
unfoldable pub on_all_channels : (ℕ → Hv → Hv) → (ℕ → Bool) → List ℕ → Hv → Reply
on_all_channels move answers requested s = record {
  requested_channels = requested;
  used_channels = requested;
  skipped_channels = [];
  outcome = run_channels move answers 0 requested s;
}

-- The methods, by what they do to a channel that answers.
pub data Command : Type 0 where
  set_common_voltage set_common_threshold get_voltage get_threshold : Command
  get_volt_thr_configuration get_ch_status get_ch_alarm reset force_reset : Command
  on off force_off : Command

unfoldable pub moves : Command → ℕ → Hv → Hv
moves Command.on ch s = move_to_on ch s
moves Command.off ch s = move_to_off ch s
moves Command.force_off ch s = move_to_off ch s
moves _ ch s = s

unfoldable pub reply_to : Command → (ℕ → Bool) → List ℕ → Hv → Reply
unfolding moves on_all_channels on_ok_channels
reply_to Command.force_off answers chs s = on_all_channels (moves Command.force_off) answers chs s
reply_to Command.force_reset answers chs s =
    on_all_channels (moves Command.force_reset) answers chs s
reply_to k answers chs s = on_ok_channels (moves k) answers chs s

-- A call of a method: `none` when `hv_channels_definition` raises.
unfoldable pub command : Command → (ℕ → Bool) → ChannelsArg → Hv → Option Reply
unfolding reply_to
command k answers channels s = elim (hv_channels_definition channels n_channels) [
  | none ↦ none
  | some chs ↦ some (reply_to k answers chs s)
]

-- The lists of `recover_bad_channels`.
pub record Recovery : Type 0 where
  pub state : Hv
  pub recovered : List ℕ
  pub recovered_on : List ℕ
  pub recovered_off : List ℕ
  pub still_bad : List ℕ

-- What a BAD channel answers: its status, or `none` when it is out of bounds, does not answer at its
-- address (`checkAddress`), or cannot be read.
unfoldable pub checked_status : (ℕ → Bool) → (ℕ → Option ℕ) → ℕ → Option Status
checked_status responds read ch =
    if leb 1 ch && leb ch num_channels && responds ch
    then map_option status_string (read ch)
    else none

abbrev pub recover_channel : Option Status → ℕ → Hv → Hv
recover_channel none ch s = s
recover_channel (some Status.up) ch s = move_to_on ch (move_to_ok ch s)
recover_channel (some _) ch s = move_to_off ch (move_to_ok ch s)

abbrev pub note_recovered : Option Status → ℕ → Recovery → Recovery
note_recovered none ch r = record r { still_bad = ch ∷ r.still_bad }
note_recovered (some Status.up) ch r = record r {
  recovered = ch ∷ r.recovered;
  recovered_on = ch ∷ r.recovered_on;
}
note_recovered (some _) ch r = record r {
  recovered = ch ∷ r.recovered;
  recovered_off = ch ∷ r.recovered_off;
}

-- The loop over the BAD channels.
unfoldable pub recover : (ℕ → Bool) → (ℕ → Option ℕ) → List ℕ → Hv → Recovery
recover responds read [] s = record {
  state = s;
  recovered = [];
  recovered_on = [];
  recovered_off = [];
  still_bad = [];
}
recover responds read (ch ∷ chs) s =
    let answer = checked_status responds read ch in
    note_recovered answer ch (recover responds read chs (recover_channel answer ch s))

-- `recover_bad_channels`
unfoldable pub recover_bad_channels : (ℕ → Bool) → (ℕ → Option ℕ) → Hv → Recovery
unfolding recover
recover_bad_channels responds read s = recover responds read s.bad_ch s

-- `set_fixed_bad_channels`
unfoldable pub set_fixed_bad_channels : ChannelsArg → Hv → Option Hv
set_fixed_bad_channels channels s = elim (hv_channels_definition channels n_channels) [
  | none ↦ none
  | some chs ↦ some (replace_fixed_bad chs s)
]
