-- ===== src/Session.antt =====
-- The life of the library: the states of src/raspike_protocol.c that its calls reach from its static
-- variables on, one call after the other in any order, on any serial line, and with whatever the other
-- threads do in the turns that a call gives them (Other, in Link/System).
pub mod Invariant
pub mod Numbers
pub mod Ready
pub mod Safety
mod Tests
use libraspike_art.Base.{ℕ, ◌≡◌, ℤ, List, [], Option, none, Bool, false, Outcome, done, neg}
use libraspike_art.Com.Fd.{Buf}
use libraspike_art.Com.Usb.{Com, Descriptor}
use libraspike_art.Link.State.{Link, PortDevice}
use libraspike_art.Link.Ports.{no_request}
use libraspike_art.Link.Process.{zero_telemetry}
use libraspike_art.Link.System.{System, Turn}
use libraspike_art.Link.Send.{prot_send, prot_send_priority}
use libraspike_art.Link.Receive.{prot_receive}
use libraspike_art.Link.Request.{request}
use libraspike_art.Link.Lifecycle.{Version, no_stats, prot_init, prot_shutdown}
use libraspike_art.Link.Api.{port_com_change_if_needed}
use libraspike_art.Device.Common.{PbioError, get_device_common}
use libraspike_art.Device.Motor.{motor_reset_count}

-- The static variables before the first call.
pub initial : Link
initial = record {
  status = none;
  desc = none;
  telemetry = zero_telemetry;
  ports = λ i. no_request;
  handshake_complete = false;
  stop_communication = false;
  synchronization_initialized = false;
  use_protocol_v2 = false;
  session_id = 0;
  capabilities = 0;
  active_receivers = 0;
  next_sequence = 1;
  version_major = 0;
  version_minor = 0;
  version_patch = 0;
  stats = no_stats;
}

-- One call that comes to an end. `world`: the line brings and takes anything, and the other threads
-- get other turns. `stores`: a function of a device writes to an entry of the table.
pub data Step (s s' : System) : Type 0 where
  world :
      (line : Com) (turns : List Turn) → s' ≡ record s { line = line; turns = turns } → Step s s'
  inits :
      (version : Version) (allocated : Bool) (desc : Option Descriptor) (ret : ℤ)
      → prot_init version allocated desc s ≡ done ret s'
      → Step s s'
  shuts_down : (ret : ℤ) → prot_shutdown s ≡ done ret s' → Step s s'
  receives : (ret : ℤ) → prot_receive s ≡ done ret s' → Step s s'
  sends :
      (port cmd : ℕ) (payload : Buf) (ret : ℤ)
      → prot_send port cmd payload s ≡ done ret s'
      → Step s s'
  sends_priority :
      (port cmd : ℕ) (payload : Buf) (ret : ℤ)
      → prot_send_priority port cmd payload s ≡ done ret s'
      → Step s s'
  requests :
      (port cmd : ℕ) (payload : Buf) (ret : ℤ)
      → request port cmd payload s ≡ done ret s'
      → Step s s'
  changes_port :
      (port wait_cmd : ℕ) (ret : ℤ)
      → port_com_change_if_needed port wait_cmd s ≡ done ret s'
      → Step s s'
  claims :
      (kind port : ℕ) (device : Option ℕ)
      → get_device_common kind port s ≡ done device s'
      → Step s s'
  resets_count :
      (motor : Option ℕ) (ret : PbioError) → motor_reset_count motor s ≡ done ret s' → Step s s'
  stores :
      (ports : ℕ → PortDevice)
      → s' ≡ record s { link = record s.link { ports = ports } }
      → Step s s'

-- The states that calls reach one after the other.
pub data Reach : System → Type 0 where
  starts :
      (line : Com) (turns : List Turn) (s : System)
      → s ≡ record { line = line; link = initial; turns = turns }
      → Reach s
  next : {s s' : System} → Reach s → Step s s' → Reach s'
