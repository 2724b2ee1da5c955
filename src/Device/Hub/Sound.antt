-- ===== src/Device/Hub/Sound.antt =====
-- The light, the speaker and the system commands of src/raspike_hub.c, lines 184 to 260.
use libraspike_art.Base.{
  ℕ, List, [], ◌∷◌, ◌++◌, Option, none, some, Bool, true, false, ltb, if◌then◌else◌, slice, ℤ, neg,
  is_neg, unsigned32, Action, pure, ◌>>=◌, ◌>>◌,
}
use libraspike_art.Wire.Word.{put_u16, put_u32}
use libraspike_art.Wire.Layout.{port_none, soft_reset_magic, update_mode_magic}
use libraspike_art.Wire.Command.{
  cmd_hub_lgt_on_hsv, cmd_hub_lgt_on_col, cmd_hub_lgt_off, cmd_hub_spk_set_vol, cmd_hub_spk_ply_ton,
  cmd_hub_spk_stp, cmd_soft_rst, cmd_update_mode, cmd_sht_dwn,
}
use libraspike_art.Com.Fd.{bytes}
use libraspike_art.Link.System.{System, yield}
use libraspike_art.Link.Request.{request}
use libraspike_art.Link.Lifecycle.{prot_shutdown}
use libraspike_art.Device.Common.{PbioError, invalid_arg}
use libraspike_art.Device.Hub.{send_hub_command, no_data}

-- `hsv` is the 4 bytes of `pbio_color_hsv_t`, `color` those of the enumeration.
unfoldable pub light_on_hsv : Option (List ℕ) → Action System PbioError
unfolding send_hub_command
light_on_hsv none = pure invalid_arg
light_on_hsv (some hsv) = send_hub_command cmd_hub_lgt_on_hsv (bytes (slice 0 4 hsv))

unfoldable pub light_on_color : ℕ → Action System PbioError
unfolding send_hub_command put_u32
light_on_color color = send_hub_command cmd_hub_lgt_on_col (bytes (put_u32 color))

unfoldable pub light_off : Action System PbioError
unfolding send_hub_command
light_off = send_hub_command cmd_hub_lgt_off no_data

abbrev limited_volume : ℕ → ℕ
limited_volume volume = if ltb 100 volume then 100 else volume

unfoldable pub speaker_set_volume : ℕ → Action System (Unit {0})
unfolding send_hub_command
speaker_set_volume volume =
    send_hub_command cmd_hub_spk_set_vol (bytes (limited_volume volume ∷ [])) >>= λ _. pure tt

unfoldable pub speaker_stop : Action System (Unit {0})
unfolding send_hub_command
speaker_stop = send_hub_command cmd_hub_spk_stp no_data >>= λ _. pure tt

-- `SOUND_MANUAL_STOP`
abbrev manual_stop : ℤ
manual_stop = neg 1

abbrev is_success : PbioError → Bool
is_success PbioError.success = true
is_success PbioError.invalid_arg = false
is_success PbioError.io = false
is_success PbioError.no_dev = false
is_success PbioError.timedout = false

-- While the call sleeps, the other threads have their turn.
unfoldable pub speaker_play_tone : ℕ → ℤ → Action System (Unit {0})
unfolding send_hub_command speaker_stop yield put_u16 put_u32
speaker_play_tone frequency duration = do
  sent ←
      send_hub_command cmd_hub_spk_ply_ton
        (bytes (put_u32 (unsigned32 manual_stop) ++ put_u16 frequency))
  if is_success sent
      then (if is_neg duration then pure tt else (yield >> speaker_stop))
      else pure tt

unfoldable pub system_restart : Action System (Unit {0})
unfolding request put_u32
system_restart = request port_none cmd_soft_rst (bytes (put_u32 soft_reset_magic)) >>= λ _. pure tt

unfoldable pub system_enter_update_mode : Action System (Unit {0})
unfolding request put_u32
system_enter_update_mode =
    request port_none cmd_update_mode (bytes (put_u32 update_mode_magic)) >>= λ _. pure tt

unfoldable pub system_shutdown : Action System (Unit {0})
unfolding send_hub_command prot_shutdown
system_shutdown = send_hub_command cmd_sht_dwn no_data >>= λ _. prot_shutdown >>= λ _. pure tt
