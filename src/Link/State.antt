-- ===== src/Link/State.antt =====
-- The static variables of src/raspike_protocol.c, lines 41 to 78, and `RPPortDevice` of
-- src/raspike_internal.h, lines 19 to 42. Mutexes do not appear: what one of them guards is one step
-- of the model. Condition variables appear as the turns of the other threads.
use libraspike_art.Base.{ℕ, ◌+◌, List, Option, Bool, ℤ}
use libraspike_art.Wire.Word.{u64}
use libraspike_art.Com.Usb.{Descriptor}

-- `struct _pup_device_t`
pub record Device : Type 0 where
  pub port_id : ℕ
  pub device_type : ℕ
  pub cmd : ℕ
  pub power : ℤ

pub record PortDevice : Type 0 where
  pub device : Device
  pub pending_sequence : ℕ
  pub ack_sequence : ℕ
  pub ack_session : ℕ
  pub ack_cmd : ℤ
  pub ack_data : ℤ
  pub pending : Bool

abbrev pub port_number : ℕ
port_number = 7

abbrev pub device_port_count : ℕ
device_port_count = 6

abbrev pub hub_device_index : ℕ
hub_device_index = 6

-- `RPInternalLinkStats`
pub record LinkStats : Type 0 where
  pub tx_frames : ℕ
  pub rx_frames : ℕ
  pub rx_legacy_frames : ℕ
  pub crc_errors : ℕ
  pub framing_errors : ℕ
  pub session_errors : ℕ
  pub request_timeouts : ℕ
  pub request_retries : ℕ
  pub stale_acks : ℕ

-- `*fgStatus` and `fgRuntimeTelemetry` are the bytes of the structs; `ports` is `gPortDevices`.
pub record Link : Type 0 where
  pub status : Option (List ℕ)
  pub desc : Option Descriptor
  pub telemetry : List ℕ
  pub ports : ℕ → PortDevice
  pub handshake_complete : Bool
  pub stop_communication : Bool
  pub synchronization_initialized : Bool
  pub use_protocol_v2 : Bool
  pub session_id : ℕ
  pub capabilities : ℕ
  pub active_receivers : ℕ
  pub next_sequence : ℕ
  pub version_major : ℕ
  pub version_minor : ℕ
  pub version_patch : ℕ
  pub stats : LinkStats

-- The counters of `fgLinkStats`.
pub data Counter : Type 0 where
  tx_frames rx_frames rx_legacy_frames crc_errors framing_errors session_errors : Counter
  request_timeouts request_retries stale_acks : Counter

pub bump : Counter → LinkStats → LinkStats
bump Counter.tx_frames s = record s { tx_frames = u64 (s.tx_frames + 1) }
bump Counter.rx_frames s = record s { rx_frames = u64 (s.rx_frames + 1) }
bump Counter.rx_legacy_frames s = record s { rx_legacy_frames = u64 (s.rx_legacy_frames + 1) }
bump Counter.crc_errors s = record s { crc_errors = u64 (s.crc_errors + 1) }
bump Counter.framing_errors s = record s { framing_errors = u64 (s.framing_errors + 1) }
bump Counter.session_errors s = record s { session_errors = u64 (s.session_errors + 1) }
bump Counter.request_timeouts s = record s { request_timeouts = u64 (s.request_timeouts + 1) }
bump Counter.request_retries s = record s { request_retries = u64 (s.request_retries + 1) }
bump Counter.stale_acks s = record s { stale_acks = u64 (s.stale_acks + 1) }

unfoldable pub stats_increment : Counter → Link → Link
unfolding bump
stats_increment k l = record l { stats = bump k l.stats }
