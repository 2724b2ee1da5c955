-- ===== src/Link/Process.antt =====
-- `process_hello_payload` and `process_command`, src/raspike_protocol.c, lines 565 to 694. What was
-- received is a list of bytes; its length is the `size` beside the pointer.
pub mod Ack
pub mod Kept
pub mod Telemetry
pub mod Foreign
pub mod Sessions
pub mod Sized
use libraspike_art.Base.{
  ℕ, zero, suc, ◌+◌, ◌*◌, ◌/◌, ◌%◌, ◌^◌, bit_and, ◌&&◌, ◌||◌, not, List, [], ◌∷◌, Option, none,
  some, Bool, true, false, ltb, leb, ◌==◌, if◌then◌else◌, length, slice, splice, set, drop,
  replicate, ℤ, pos, neg, is_neg, signed32, signed16, unsigned32, Outcome, Action, done, fault,
}
use libraspike_art.Base.Errno.{einval, estale, emsgsize, enomsg}
use libraspike_art.Wire.Word.{byte, get_u16, get_u32, put_u32}
use libraspike_art.Wire.Layout.{
  v2_version, v2_hello_payload_size, drive_motor_slots, drive_color_valid,
}
use libraspike_art.Wire.Layout.Status
use libraspike_art.Wire.Layout.Drive
use libraspike_art.Wire.Layout.Runtime
use libraspike_art.Wire.Layout.Device
use libraspike_art.Wire.Command.{
  cmd_link_hello, cmd_all_status, cmd_runtime_telemetry, cmd_drive_telemetry, cmd_ack,
  cmd_link_stats,
}
use libraspike_art.Link.State.{
  Link, PortDevice, LinkStats, Counter, stats_increment, device_port_count,
}
use libraspike_art.Link.Ports.{is_valid_port, get_device, update_port, reset_port_state}

-- `calloc` and `memset` of the two structs.
abbrev pub zero_status : List ℕ
zero_status = replicate Status.size 0

abbrev pub zero_telemetry : List ℕ
zero_telemetry = replicate Runtime.size 0

abbrev cleared : Option (List ℕ) → Option (List ℕ)
cleared none = none
cleared (some _) = some zero_status

unfoldable pub process_hello_payload : List ℕ → Link → Link
unfolding get_u32 reset_port_state
process_hello_payload buf l =
    let session = get_u32 (drop 4 buf) in
    if not (length buf == v2_hello_payload_size) || not (byte buf 0 == v2_version)
    then l
    else if session == 0 || session == l.session_id
    then l
    else let l' =
        reset_port_state (neg estale) false
          (record l { session_id = session; capabilities = byte buf 1 }) in
      record l' { status = cleared l.status; telemetry = zero_telemetry }

-- `memcpy(status->data + at, &telemetry.field, n)`, and the like.
abbrev copy_field : ℕ → ℕ → ℕ → List ℕ → List ℕ → List ℕ
copy_field to from n telemetry status = splice to (slice from n telemetry) status

-- One round of the loop over the motor slots.
unfoldable pub store_motor_slot : List ℕ → ℕ → List ℕ → List ℕ
store_motor_slot telemetry slot status =
    let port = byte telemetry (Drive.motor_port slot) in
    let at = Status.port_data port in
    if bit_and (byte telemetry Drive.flags) (2 ^ slot) == 0
    then status
    else if leb device_port_count port
    then status
    else copy_field (at + Device.mot_power) (Drive.motor_power slot) 2 telemetry (
        copy_field (at + Device.mot_speed) (Drive.motor_speed_deg_s slot) 4 telemetry (
          copy_field (at + Device.mot_count) (Drive.motor_count_deg slot) 4 telemetry
            (set status (Status.port port) port)))

-- `int32_t reflection = telemetry.reflection`, as its bytes.
abbrev widen : ℕ → List ℕ
widen w = put_u32 (unsigned32 (signed16 w))

unfoldable pub store_color : List ℕ → List ℕ → List ℕ
unfolding put_u32 get_u16
store_color telemetry status =
    let port = byte telemetry Drive.color_port in
    if bit_and (byte telemetry Drive.flags) drive_color_valid == 0
    then status
    else if ltb port device_port_count
    then splice (Status.port_data port) (widen (get_u16 (drop Drive.reflection telemetry)))
        (set status (Status.port port) port)
    else status

-- The case `RP_CMD_ID_DRIVE_TELEMETRY`, on the bytes of the status.
unfoldable pub store_drive_telemetry : List ℕ → List ℕ → List ℕ
unfolding store_motor_slot store_color
store_drive_telemetry telemetry status =
    store_color telemetry (store_motor_slot telemetry 1 (store_motor_slot telemetry 0 status))

-- The case `RP_CMD_ID_ACK`, once the entry of the port is found.
abbrev pub ack_matches : Link → PortDevice → ℕ → ℕ → ℤ → Bool
ack_matches l dev sequence session ack_cmd =
    dev.pending
    && not (is_neg ack_cmd)
    && (not l.use_protocol_v2 || (sequence == dev.pending_sequence && session == l.session_id))

unfoldable pub process_ack : ℕ → ℕ → ℕ → List ℕ → Link → Link × ℤ
unfolding get_u32 stats_increment
process_ack i sequence session buf l =
    let dev = l.ports i in
    let ack_cmd = signed32 (get_u32 buf) in
    let ack_data = signed32 (get_u32 (drop 4 buf)) in
    if ack_matches l dev sequence session ack_cmd
    then (
      update_port i
          (record dev {
            ack_cmd = ack_cmd;
            ack_data = ack_data;
            ack_sequence = sequence;
            ack_session = session;
            pending = false;
          })
          l,
      pos 0,
    )
    else (stats_increment Counter.stale_acks l, neg estale)

abbrev answer : Link × ℤ → Outcome Link ℤ
answer (l, ret) = done ret l

abbrev on_device : Option ℕ → (ℕ → Link × ℤ) → Link → Outcome Link ℤ
on_device none f l = done (neg einval) l
on_device (some i) f l = answer (f i)

-- A write to `*fgStatus`, which is a fault if there is none.
abbrev store_status : Option (List ℕ) → (List ℕ → List ℕ) → Link → Outcome Link ℤ
store_status none f l = fault
store_status (some status) f l = done (pos 0) (record l { status = some (f status) })

-- The `switch`.
unfoldable pub dispatch : ℕ → ℕ → ℕ → ℕ → List ℕ → Action Link ℤ
unfolding store_drive_telemetry process_ack get_device
dispatch port cmd sequence session buf l =
    if cmd == cmd_all_status
    then (if length buf == Status.size
        then store_status l.status (λ _. buf) l
        else done (neg emsgsize) l)
    else if cmd == cmd_runtime_telemetry
    then (if length buf == Runtime.size
        then done (pos 0) (record l { telemetry = buf })
        else done (neg emsgsize) l)
    else if cmd == cmd_drive_telemetry
    then (if length buf == Drive.size
        then store_status l.status (store_drive_telemetry buf) l
        else done (neg emsgsize) l)
    else if cmd == cmd_ack
    then (if length buf == 8
        then on_device (get_device port) (λ i. process_ack i sequence session buf l) l
        else done (neg emsgsize) l)
    else if cmd == cmd_link_stats
    then done (pos 0) l
    else done (neg enomsg) l

unfoldable pub process_command : ℕ → ℕ → ℕ → ℕ → ℕ → List ℕ → Action Link ℤ
unfolding process_hello_payload is_valid_port stats_increment dispatch
process_command port cmd flags sequence session buf l =
    if cmd == cmd_link_hello
    then done (pos 0) (process_hello_payload buf l)
    else if not (is_valid_port port)
    then done (neg einval) (stats_increment Counter.framing_errors l)
    else if l.use_protocol_v2 && not (session == l.session_id)
    then done (neg estale) (stats_increment Counter.session_errors l)
    else dispatch port cmd sequence session buf l
