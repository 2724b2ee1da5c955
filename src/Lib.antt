-- ===== src/Lib.antt =====
-- The library between a Raspberry Pi program and a SPIKE hub: a session over a serial line, and the
-- devices on it.
--
-- The parts, from the wire up:
--   Wire    src/raspike_protocol_com.h: the words (Word, `rp_v2_get_u16` and the like), the check sum
--           (Crc, `rp_v2_crc16`), the command numbers (Command, `MAKE_CMD` and `RP_CMD_ID_…`), the frame
--           constants and the offsets of the structs (Layout).
--   Com     src/raspike_com.c: the clock and the deadlines (Clock, also `deadline_after_ms` of
--           src/raspike_protocol.c), what the code asks of the operating system (Os), transfers with a
--           deadline (Fd, `write_all_fd`, `read_some_fd`), and the descriptor with the send buffer (Usb).
--   Link    src/raspike_protocol.c and src/raspike_internal.h: the static variables (State), the table
--           `gPortDevices` (Ports), `process_command` (Process), the threads (System), the frames (Send,
--           Receive), `raspike_request` (Request), `raspike_prot_init` and `raspike_prot_shutdown`
--           (Handshake, Lifecycle), and the functions over the session (Api).
--   Device  src/raspike_internal.h's macros (Common), src/raspike_motor.c (Motor), src/raspike_color.c,
--           src/raspike_forcesensor.c and src/raspike_ultrasonicsensor.c (Sensors), src/raspike_hub.c
--           (Hub). They send through Link and read the status that Link keeps.
--   Session the life of the library: the static variables before the first call, and the states that
--           the calls reach from them in any order, on any line, with other threads in their turns.
--
-- Child modules named Keeps and Calm say what calls leave as it is: a property of the session that
-- the commands, the resets and the counters keep (Stable, in Link/System/Keeps) is kept by the calls.
--
-- How the code is read. A function of C is a function of the same name without the prefix
-- `raspike_`, `rp_`, `pup_` or `hub_`. Its static variables are a record that is passed on; a call
-- comes to `done`, with its result and the new state, to `blocked`, when the operating system or
-- another thread never answers, or to `fault`, when it accesses memory through NULL (Base/Monad). A
-- buffer is the list of its bytes, a pointer that may be NULL an `Option`, an `int` a `ℤ`, an unsigned
-- number a `ℕ` with its wrap-around written out. A struct that is only copied is the list of its bytes.
--
-- The operating system is a script: one `Round` for each turn of a transfer loop, with the time that
-- passed and the results of the calls. Loops recurse on the script, so that they need no fuel; where a
-- loop has fuel (`discard_receive_bytes`, `scan_loop`), it is the count of the bytes, and the count
-- of the rounds and one more: each turn uses up one.
--
-- Threads. What a mutex guards is one step. The other threads run as the list of `Turn`s in the state
-- says: each is the commands that the receiver handles while the session has its descriptor, that it
-- leaves, or the steps of a shutdown in their order, up to the freed status and the cleared session, and
-- the result of the wait. A call gives them turns in these places: before each attempt of a request
-- and in its waits, in the wait for a port's command, in the wait of a shutdown for the receivers, and
-- while `hub_speaker_play_tone` sleeps. Everywhere else a call runs by itself, and a theorem about it
-- is one about the call alone: in particular `raspike_prot_receive`, although it blocks without a mutex
-- while it reads the line, and `raspike_prot_init`, also while it sleeps between two attempts of the
-- handshake. No other thread starts a session during a call, and the end of a shutdown does not overlap
-- the start of the next session.
--
-- Not modelled: the printing, the mutexes themselves and their order, `memset` of padding, the test
-- programs src/test.c and src/serialtest.c, the samples, and the copy of libpybricks.
pub mod Base
pub mod Wire
pub mod Com
pub mod Link
pub mod Device
pub mod Session
