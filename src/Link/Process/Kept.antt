-- ===== src/Link/Process/Kept.antt =====
-- The session before and after `process_command` of src/raspike_protocol.c.
use libraspike_art.Base.{
  ℕ, ◌≢◌, ◌⊎◌, sym, ==_iff, ◌≡◌, refl, ◌∙◌, not, ◌&&◌, ◌||◌, List, Option, none, some, Bool, true,
  false, ◌==◌, Bool-cases, inl, inr, if◌then◌else◌, length, drop, ℤ, signed32, Outcome, Ends,
}
use libraspike_art.Wire.Word.{byte, get_u32}
use libraspike_art.Wire.Layout.{v2_hello_payload_size, v2_version}
use libraspike_art.Wire.Layout.Status
use libraspike_art.Wire.Layout.Runtime
use libraspike_art.Wire.Layout.Drive
use libraspike_art.Wire.Command.{
  cmd_link_hello, cmd_all_status, cmd_runtime_telemetry, cmd_drive_telemetry, cmd_ack,
  cmd_link_stats,
}
use libraspike_art.Link.State.{Link, Counter, stats_increment}
use libraspike_art.Link.Ports.{is_valid_port, get_device, reset_port_state}
use libraspike_art.Link.Process.{
  process_hello_payload, store_drive_telemetry, process_ack, on_device, store_status, dispatch,
  process_command, ack_matches,
}

-- The session is the same but for what frames are about: the status, the telemetry, the entries, the
-- counters, and the capabilities and the number of the session, which is the same or is not 0.
pub record Kept (l : Link) (l' : Link) : Type 0 where
  pub desc : l'.desc ≡ l.desc
  pub handshake_complete : l'.handshake_complete ≡ l.handshake_complete
  pub stop_communication : l'.stop_communication ≡ l.stop_communication
  pub use_protocol_v2 : l'.use_protocol_v2 ≡ l.use_protocol_v2
  pub active_receivers : l'.active_receivers ≡ l.active_receivers
  pub next_sequence : l'.next_sequence ≡ l.next_sequence
  pub session : (l'.session_id ≡ l.session_id) ⊎ (l'.session_id ≢ 0)

abbrev pub all_refl : (l : Link) → Kept l l
all_refl l = record {
  desc = refl;
  handshake_complete = refl;
  stop_communication = refl;
  use_protocol_v2 = refl;
  active_receivers = refl;
  next_sequence = refl;
  session = inl refl;
}

-- The number of the session after two steps.
later_session : (a b c : ℕ) → (b ≡ a) ⊎ (b ≢ 0) → (c ≡ b) ⊎ (c ≢ 0) → (c ≡ a) ⊎ (c ≢ 0)
later_session a b c h (inr n) = inr n
later_session a b c (inl e) (inl e') = inl (e' ∙ e)
later_session a b c (inr n) (inl e') = inr (λ z. n (sym e' ∙ z))

pub Kept-trans : (l m n : Link) → Kept l m → Kept m n → Kept l n
Kept-trans l m n h k = record {
  desc = k.desc ∙ h.desc;
  handshake_complete = k.handshake_complete ∙ h.handshake_complete;
  stop_communication = k.stop_communication ∙ h.stop_communication;
  use_protocol_v2 = k.use_protocol_v2 ∙ h.use_protocol_v2;
  active_receivers = k.active_receivers ∙ h.active_receivers;
  next_sequence = k.next_sequence ∙ h.next_sequence;
  session = later_session l.session_id m.session_id n.session_id h.session k.session;
}

module _ (l : Link) where
  abbrev pub KeptBy : {A : Type 0} → A → Link → Type 0
  KeptBy a l' = Kept l l'

  pub stats-Kept : (k : Counter) → Kept l (stats_increment k l)
  unfolding stats_increment
  stats-Kept k = record {
    desc = refl;
    handshake_complete = refl;
    stop_communication = refl;
    use_protocol_v2 = refl;
    active_receivers = refl;
    next_sequence = refl;
    session = inl refl;
  }

  some_session :
      (buf : List ℕ)
      → (get_u32 (drop 4 buf) == 0 || get_u32 (drop 4 buf) == l.session_id) ≡ false
      → get_u32 (drop 4 buf) ≢ 0
  some_session buf e z = let test = (==_iff (get_u32 (drop 4 buf)) 0).1 z in absurd cc

  hello-Kept : (buf : List ℕ) → Kept l (process_hello_payload buf l)
  unfolding process_hello_payload reset_port_state
  hello-Kept buf =
      elim (Bool-cases
        (not (length buf == v2_hello_payload_size) || not (byte buf 0 == v2_version))) [
          | inl e ↦ rw e (all_refl l)
          | inr e ↦
              elim (Bool-cases
                (get_u32 (drop 4 buf) == 0 || get_u32 (drop 4 buf) == l.session_id)) [
                  | inl e' ↦ rw (e, e') (all_refl l)
                  | inr e' ↦
                      rw (e, e')
                        (record {
                          desc = refl;
                          handshake_complete = refl;
                          stop_communication = refl;
                          use_protocol_v2 = refl;
                          active_receivers = refl;
                          next_sequence = refl;
                          session = inr (some_session buf e');
                        })
                ]
        ]

  ack-Kept :
      (o : Option ℕ) (sequence session : ℕ) (buf : List ℕ)
      → Ends KeptBy (on_device o (λ i. process_ack i sequence session buf l) l)
  unfolding process_ack
  ack-Kept none sequence session buf = all_refl l
  ack-Kept (some i) sequence session buf =
      elim (Bool-cases (ack_matches l (l.ports i) sequence session (signed32 (get_u32 buf)))) [
        | inl e ↦ rw e (record {
          desc = refl;
          handshake_complete = refl;
          stop_communication = refl;
          use_protocol_v2 = refl;
          active_receivers = refl;
          next_sequence = refl;
          session = inl refl;
        })
        | inr e ↦ rw e (stats-Kept Counter.stale_acks)
      ]

  store-Kept : (o : Option (List ℕ)) (f : List ℕ → List ℕ) → Ends KeptBy (store_status o f l)
  store-Kept none f = tt
  store-Kept (some status) f = record {
    desc = refl;
    handshake_complete = refl;
    stop_communication = refl;
    use_protocol_v2 = refl;
    active_receivers = refl;
    next_sequence = refl;
    session = inl refl;
  }

  telemetry-Kept : (buf : List ℕ) → Kept l (record l { telemetry = buf })
  telemetry-Kept buf = record {
    desc = refl;
    handshake_complete = refl;
    stop_communication = refl;
    use_protocol_v2 = refl;
    active_receivers = refl;
    next_sequence = refl;
    session = inl refl;
  }

  -- Both outcomes of a test.
  or-Kept :
      (b : Bool) (o o' : Outcome Link ℤ)
      → Ends KeptBy o
      → Ends KeptBy o'
      → Ends KeptBy (if b then o else o')
  or-Kept true o o' h h' = h
  or-Kept false o o' h h' = h'

  dispatch-Kept :
      (port cmd sequence session : ℕ) (buf : List ℕ)
      → Ends KeptBy (dispatch port cmd sequence session buf l)
  unfolding dispatch
  dispatch-Kept port cmd sequence session buf =
      or-Kept (cmd == cmd_all_status) _ _
        (or-Kept (length buf == Status.size) _ _ (store-Kept l.status (λ _. buf)) (all_refl l))
        (or-Kept (cmd == cmd_runtime_telemetry) _ _
          (or-Kept (length buf == Runtime.size) _ _ (telemetry-Kept buf) (all_refl l))
          (or-Kept (cmd == cmd_drive_telemetry) _ _
            (or-Kept (length buf == Drive.size) _ _
              (store-Kept l.status (store_drive_telemetry buf)) (all_refl l))
            (or-Kept (cmd == cmd_ack) _ _
              (or-Kept (length buf == 8) _ _ (ack-Kept (get_device port) sequence session buf)
                (all_refl l))
              (or-Kept (cmd == cmd_link_stats) _ _ (all_refl l) (all_refl l)))))

  pub process_command-Kept :
      (port cmd flags sequence session : ℕ) (buf : List ℕ)
      → Ends KeptBy (process_command port cmd flags sequence session buf l)
  unfolding process_command
  process_command-Kept port cmd flags sequence session buf =
      or-Kept (cmd == cmd_link_hello) _ _ (hello-Kept buf) (
        or-Kept (not (is_valid_port port)) _ _ (stats-Kept Counter.framing_errors) (
          or-Kept (l.use_protocol_v2 && not (session == l.session_id)) _ _
            (stats-Kept Counter.session_errors) (dispatch-Kept port cmd sequence session buf)))
