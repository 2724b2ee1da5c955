-- ===== src/Device/Common.antt =====
-- The macros of src/raspike_internal.h, lines 59 to 114, and `pbio_error_t`. A device pointer is the
-- index of its entry in `gPortDevices`, or `none` for NULL.
pub mod Claims
pub mod Delayed
pub mod Keeps
use libraspike_art.Base.{
  ℕ, ◌+◌, ◌||◌, not, List, Option, none, some, Bool, ◌==◌, if◌then◌else◌, slice, replicate, ℤ, pos,
  ◌==ℤ◌, signed32, signed16, ◌-◌, Action, done, pure, ◌>>=◌, ◌>>◌, get,
}
use libraspike_art.Wire.Word.{u8, byte, get_u32, get_u16}
use libraspike_art.Wire.Layout.{port_none}
use libraspike_art.Wire.Layout.Status
use libraspike_art.Wire.Command.{make_cmd}
use libraspike_art.Com.Fd.{null}
use libraspike_art.Link.State.{Link, Device}
use libraspike_art.Link.Ports.{is_valid_port, get_device, update_port}
use libraspike_art.Link.System.{System, update_link}
use libraspike_art.Link.Request.{request}
use libraspike_art.Link.Api.{port_com_change_if_needed}

-- The values of `pbio_error_t` that the library returns.
pub data PbioError : Type 0 where
  success invalid_arg io no_dev timedout : PbioError

-- `PORT_TO_RASPIKE(port)`, as an `unsigned char`.
abbrev pub port_to_raspike : ℕ → ℕ
port_to_raspike port = u8 (port + (256 - b'A'))

abbrev pub set_device : ℕ → Device → Link → Link
set_device i d l = update_port i (record (l.ports i) { device = d }) l

abbrev configured : ℕ → ℕ → ℕ → Link → Link
configured i kind port l =
    set_device i (record (l.ports i).device { device_type = kind; port_id = port }) l

-- `GET_DEVICE_COMMON`, from where the entry is found.
unfoldable pub claim_device : ℕ → ℕ → ℕ → Action System (Option ℕ)
unfolding request
claim_device kind port i s =
    let current = (s.link.ports i).device.device_type in
    let configure = (do
      result ← request port (u8 (make_cmd kind 0)) (null (pos 0))
      if not (result ==ℤ pos 1)
          then pure none
          else (do update_link (configured i kind port); pure (some i))) in
    if current == kind
    then done (some i) s
    else if not (current == 0)
    then done none s
    else configure s

abbrev on_entry : Option ℕ → (ℕ → Action System (Option ℕ)) → Action System (Option ℕ)
on_entry none f = pure none
on_entry (some i) f = f i

-- `GET_DEVICE_COMMON`. `kind` is `fgDeviceType`.
unfoldable pub get_device_common : ℕ → ℕ → Action System (Option ℕ)
unfolding is_valid_port get_device claim_device
get_device_common kind port =
    let r_port = port_to_raspike port in
    if not (is_valid_port r_port) || r_port == port_none
    then pure none
    else on_entry (get_device r_port) (claim_device kind r_port)

abbrev device_at : System → ℕ → Device
device_at s i = (s.link.ports i).device

abbrev pub zero_value : ℕ → List ℕ
zero_value size = replicate size 0

-- `memcpy(&result_value, p->ports[port].data + index, size)`
abbrev pub read_port : ℕ → ℕ → ℕ → List ℕ → List ℕ
read_port port index size status = slice (Status.port_data port + index) size status

abbrev read_or_zero : Option (List ℕ) → ℕ → ℕ → ℕ → List ℕ
read_or_zero none port index size = zero_value size
read_or_zero (some status) port index size = read_port port index size status

-- `GET_AND_RET_SENSOR_COMMON`, for a type of `size` bytes.
unfoldable pub get_sensor : Option ℕ → ℕ → ℕ → System → List ℕ
unfolding is_valid_port
get_sensor none index size s = zero_value size
get_sensor (some i) index size s =
    let port = (device_at s i).port_id in
    if not (is_valid_port port) then zero_value size else read_or_zero s.link.status port index size

-- `DELAYED_SENSOR_COMMON`: the port is first made to send what `cmd` names.
unfoldable pub delayed_sensor : Option ℕ → ℕ → ℕ → Action System (List ℕ)
unfolding is_valid_port port_com_change_if_needed
delayed_sensor none cmd size s = done (zero_value size) s
delayed_sensor (some i) cmd size s =
    let port = (device_at s i).port_id in
    let read = (do
      ret ← port_com_change_if_needed port cmd
      if not (ret ==ℤ pos 0)
          then pure (zero_value size)
          else (do s' ← get; pure (read_or_zero s'.link.status port 0 size))) in
    if not (is_valid_port port) then done (zero_value size) s else read s

-- The values that the bytes stand for.
abbrev pub to_int32 : List ℕ → ℤ
to_int32 p = signed32 (get_u32 p)

abbrev pub to_int16 : List ℕ → ℤ
to_int16 p = signed16 (get_u16 p)

abbrev pub to_bool : List ℕ → Bool
to_bool p = not (byte p 0 == 0)
