-- ===== src/Wire/Layout/Runtime.antt =====
-- The packed struct `RPRuntimeTelemetry`, src/raspike_protocol_com.h, lines 184 to 207: nine
-- `uint32_t`, five `int32_t`, four `int16_t` and four `uint8_t`.
use libraspike_art.Base.{ℕ}

abbrev pub size : ℕ
size = 68

abbrev pub sequence : ℕ
sequence = 0
