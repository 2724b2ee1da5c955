-- ===== src/Link/Ports.antt =====
-- The table of the ports and the sequence numbers, src/raspike_protocol.c, lines 100 to 164.
pub mod Sequence
use libraspike_art.Base.{
  ℕ, ◌+◌, ◌||◌, Option, none, some, Bool, false, ltb, leb, ◌==◌, if◌then◌else◌, ℤ, pos, neg,
}
use libraspike_art.Wire.Word.{u32}
use libraspike_art.Wire.Layout.{port_none}
use libraspike_art.Link.State.{
  Device, PortDevice, Link, port_number, device_port_count, hub_device_index,
}

unfoldable pub is_valid_port : ℕ → Bool
is_valid_port port = ltb port device_port_count || port == port_none

-- `getDevice`: the index of the entry, or NULL.
unfoldable pub get_device : ℕ → Option ℕ
get_device port =
    if port == port_none
    then some hub_device_index
    else if leb device_port_count port
    then none
    else some port

abbrev pub no_device : Device
no_device = record { port_id = 0; device_type = 0; cmd = 0; power = pos 0 }

abbrev pub no_request : PortDevice
no_request = record {
  device = no_device;
  pending_sequence = 0;
  ack_sequence = 0;
  ack_session = 0;
  ack_cmd = pos 0;
  ack_data = pos 0;
  pending = false;
}

-- `init_port_device`: `memset`, and the mutexes.
abbrev pub init_port_device : PortDevice
init_port_device = no_request

-- The entry of one port.
abbrev pub update_port : ℕ → PortDevice → Link → Link
update_port i dev l = record l { ports = λ j. if j == i then dev else l.ports j }

-- The body of the loop in `reset_port_state`: a request that waits is answered with `error`.
unfoldable pub reset_port : ℤ → Bool → ℕ → PortDevice → PortDevice
reset_port error clear_devices session dev =
    let dev' =
      (if dev.pending
        then record dev {
          ack_data = error;
          ack_cmd = neg 1;
          ack_sequence = dev.pending_sequence;
          ack_session = session;
          pending = false;
        }
        else record dev {
          pending_sequence = 0;
          ack_sequence = 0;
          ack_session = 0;
          ack_cmd = pos 0;
          ack_data = pos 0;
        }) in
    if clear_devices then record dev' { device = no_device } else dev'

-- All entries, from 0 to `RP_PORT_NUMBER - 1`.
unfoldable pub reset_port_state : ℤ → Bool → Link → Link
unfolding reset_port
reset_port_state error clear_devices l = record l {
  ports = λ i.
      if ltb i port_number
      then reset_port error clear_devices l.session_id (l.ports i)
      else l.ports i;
}

-- `next_sequence`: 0 is skipped when the counter wraps.
abbrev pub bump_sequence : ℕ → ℕ
bump_sequence n = if u32 (n + 1) == 0 then 1 else u32 (n + 1)

unfoldable pub next_sequence : Link → Link × ℕ
next_sequence l = (record l { next_sequence = bump_sequence l.next_sequence }, l.next_sequence)
