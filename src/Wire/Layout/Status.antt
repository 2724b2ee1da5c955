-- ===== src/Wire/Layout/Status.antt =====
-- `RPProtocolSpikeStatus` and the `RPProtocolPortStatus` of each port in it,
-- src/raspike_protocol_com.h, lines 369 to 393.
use libraspike_art.Base.{ℕ, ◌+◌, ◌*◌}

abbrev pub size : ℕ
size = 136

abbrev pub voltage : ℕ
voltage = 0

abbrev pub current : ℕ
current = 2

abbrev pub acceleration : ℕ
acceleration = 4

abbrev pub angular_velocity : ℕ
angular_velocity = 16

abbrev pub heading : ℕ
heading = 28

abbrev pub is_ready : ℕ
is_ready = 32

abbrev pub is_stationary : ℕ
is_stationary = 34

abbrev pub button : ℕ
button = 36

abbrev pub ports : ℕ → ℕ
ports i = 40 + 16 * i

abbrev pub port : ℕ → ℕ
port i = ports i

abbrev pub cmd : ℕ → ℕ
cmd i = ports i + 1

abbrev pub port_data : ℕ → ℕ
port_data i = ports i + 4

abbrev pub port_data_size : ℕ
port_data_size = 12
