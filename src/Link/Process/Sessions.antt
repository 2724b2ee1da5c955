-- ===== src/Link/Process/Sessions.antt =====
-- `process_command` of src/raspike_protocol.c on a session whose status is allocated.
use libraspike_art.Base.{
  ℕ, ◌≡◌, refl, ap, List, Option, none, some, true, not, ◌||◌, ◌&&◌, ◌==◌, ==_iff, if◌then◌else◌,
  Bool-cases, inl, inr, length, drop, ℤ, pos, neg, signed32, Outcome, done,
}
use libraspike_art.Base.Errno.{einval, estale, emsgsize, enomsg}
use libraspike_art.Wire.Word.{byte, get_u32}
use libraspike_art.Wire.Layout.{v2_hello_payload_size, v2_version}
use libraspike_art.Wire.Layout.Status
use libraspike_art.Wire.Layout.Runtime
use libraspike_art.Wire.Layout.Drive
use libraspike_art.Wire.Command.{
  cmd_link_hello, cmd_all_status, cmd_runtime_telemetry, cmd_drive_telemetry, cmd_ack,
  cmd_link_stats,
}
use libraspike_art.Link.State.{Link, Counter, stats_increment}
use libraspike_art.Link.Ports.{is_valid_port, get_device, reset_port_state}
use libraspike_art.Link.Process.{
  process_hello_payload, store_drive_telemetry, process_ack, on_device, answer, store_status,
  ack_matches, cleared, dispatch, process_command, zero_status,
}
use libraspike_art.Link.Process.Sized.{Sized, store_drive_telemetry-Sized}

-- The status is allocated, and both structs have their size.
pub record HasStatus (l : Link) : Type 0 where
  pub status_bytes : List ℕ
  pub allocated : l.status ≡ some status_bytes
  pub status_size : length status_bytes ≡ Status.size
  pub telemetry_size : length l.telemetry ≡ Runtime.size

-- A call that comes to an end, in a state that has a status.
abbrev pub Returns : Outcome Link ℤ → Type 0
Returns o = (ret : ℤ) × ((l : Link) × ((o ≡ done ret l) × HasStatus l))

returns : (ret : ℤ) (l : Link) → HasStatus l → Returns (done ret l)
returns ret l h = (ret, (l, (refl, h)))

module _ (l : Link) (h : HasStatus l) where
  stats_increment-HasStatus : (k : Counter) → HasStatus (stats_increment k l)
  unfolding stats_increment
  stats_increment-HasStatus k = record {
    status_bytes = h.status_bytes;
    allocated = h.allocated;
    status_size = h.status_size;
    telemetry_size = h.telemetry_size;
  }

  store_status-Returns :
      (f : List ℕ → List ℕ)
      → (Sized h.status_bytes → Sized (f h.status_bytes))
      → Returns (store_status l.status f l)
  store_status-Returns f keeps = rw h.allocated (
      returns (pos 0) (record l { status = some (f h.status_bytes) })
        (record {
          status_bytes = f h.status_bytes;
          allocated = refl;
          status_size = keeps h.status_size;
          telemetry_size = h.telemetry_size;
        }))

  process_ack-Returns :
      (i sequence session : ℕ) (buf : List ℕ)
      → Returns (answer (process_ack i sequence session buf l))
  unfolding process_ack
  process_ack-Returns i sequence session buf =
      elim (Bool-cases (ack_matches l (l.ports i) sequence session (signed32 (get_u32 buf)))) [
        | inl e ↦ rw e (
            returns (pos 0) _ (record {
              status_bytes = h.status_bytes;
              allocated = h.allocated;
              status_size = h.status_size;
              telemetry_size = h.telemetry_size;
            }))
        | inr e ↦ rw e (returns (neg estale) _ (stats_increment-HasStatus Counter.stale_acks))
      ]

  on_device-Returns :
      (o : Option ℕ) (sequence session : ℕ) (buf : List ℕ)
      → Returns (on_device o (λ i. process_ack i sequence session buf l) l)
  on_device-Returns none sequence session buf = returns _ _ h
  on_device-Returns (some i) sequence session buf = process_ack-Returns i sequence session buf

  process_hello_payload-HasStatus : (buf : List ℕ) → HasStatus (process_hello_payload buf l)
  unfolding process_hello_payload reset_port_state
  process_hello_payload-HasStatus buf =
      elim (Bool-cases
        (not (length buf == v2_hello_payload_size) || not (byte buf 0 == v2_version))) [
          | inl e ↦ rw e h
          | inr e ↦
              elim (Bool-cases
                (get_u32 (drop 4 buf) == 0 || get_u32 (drop 4 buf) == l.session_id)) [
                  | inl e' ↦ rw (e, e') h
                  | inr e' ↦
                      rw (e, e')
                        (record {
                          status_bytes = zero_status;
                          allocated = ap cleared h.allocated;
                          status_size = refl;
                          telemetry_size = refl;
                        })
                ]
        ]

  dispatch_ack-Returns :
      (port cmd sequence session : ℕ) (buf : List ℕ)
      → Returns (
          if cmd == cmd_ack
          then (if length buf == 8
              then on_device (get_device port) (λ i. process_ack i sequence session buf l) l
              else done (neg emsgsize) l)
          else if cmd == cmd_link_stats
          then done (pos 0) l
          else done (neg enomsg) l)
  dispatch_ack-Returns port cmd sequence session buf = elim (Bool-cases (cmd == cmd_ack)) [
    | inl e ↦ elim (Bool-cases (length buf == 8)) [
      | inl e' ↦ rw (e, e') (on_device-Returns (get_device port) sequence session buf)
      | inr e' ↦ rw (e, e') (returns (neg emsgsize) l h)
    ]
    | inr e ↦ elim (Bool-cases (cmd == cmd_link_stats)) [
      | inl e' ↦ rw (e, e') (returns (pos 0) l h)
      | inr e' ↦ rw (e, e') (returns (neg enomsg) l h)
    ]
  ]

  telemetry-HasStatus :
      (buf : List ℕ)
      → (length buf == Runtime.size) ≡ true
      → HasStatus (record l { telemetry = buf })
  telemetry-HasStatus buf e = record {
    status_bytes = h.status_bytes;
    allocated = h.allocated;
    status_size = h.status_size;
    telemetry_size = (==_iff (length buf) Runtime.size).0 e;
  }

  dispatch-Returns :
      (port cmd sequence session : ℕ) (buf : List ℕ)
      → Returns (dispatch port cmd sequence session buf l)
  unfolding dispatch
  dispatch-Returns port cmd sequence session buf = elim (Bool-cases (cmd == cmd_all_status)) [
    | inl e ↦ elim (Bool-cases (length buf == Status.size)) [
      | inl e' ↦
          rw (e, e') (store_status-Returns (λ _. buf) (λ _. (==_iff (length buf) Status.size).0 e'))
      | inr e' ↦ rw (e, e') (returns (neg emsgsize) l h)
    ]
    | inr e ↦ elim (Bool-cases (cmd == cmd_runtime_telemetry)) [
      | inl e' ↦ elim (Bool-cases (length buf == Runtime.size)) [
        | inl e'' ↦
            rw (e, e', e'')
              (returns (pos 0) (record l { telemetry = buf }) (telemetry-HasStatus buf e''))
        | inr e'' ↦ rw (e, e', e'') (returns (neg emsgsize) l h)
      ]
      | inr e' ↦ elim (Bool-cases (cmd == cmd_drive_telemetry)) [
        | inl e'' ↦ elim (Bool-cases (length buf == Drive.size)) [
          | inl f ↦
              rw (e, e', e'', f)
                (store_status-Returns (store_drive_telemetry buf)
                  (store_drive_telemetry-Sized buf h.status_bytes))
          | inr f ↦ rw (e, e', e'', f) (returns (neg emsgsize) l h)
        ]
        | inr e'' ↦ rw (e, e', e'') (dispatch_ack-Returns port cmd sequence session buf)
      ]
    ]
  ]

  -- In a session with its status allocated and of its size, `process_command` comes to an end for
  -- every command, with a result and with the status and the telemetry still allocated and of their
  -- size: no frame, of any port, command and payload, makes it write through NULL.
  pub process_command-Returns :
      (port cmd flags sequence session : ℕ) (buf : List ℕ)
      → Returns (process_command port cmd flags sequence session buf l)
  unfolding process_command
  process_command-Returns port cmd flags sequence session buf =
      elim (Bool-cases (cmd == cmd_link_hello)) [
        | inl e ↦ rw e (returns (pos 0) _ (process_hello_payload-HasStatus buf))
        | inr e ↦ elim (Bool-cases (not (is_valid_port port))) [
          | inl e' ↦
              rw (e, e') (returns (neg einval) _ (stats_increment-HasStatus Counter.framing_errors))
          | inr e' ↦ elim (Bool-cases (l.use_protocol_v2 && not (session == l.session_id))) [
            | inl f ↦
                rw (e, e', f)
                  (returns (neg estale) _ (stats_increment-HasStatus Counter.session_errors))
            | inr f ↦ rw (e, e', f) (dispatch-Returns port cmd sequence session buf)
          ]
        ]
      ]
