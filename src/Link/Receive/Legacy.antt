-- ===== src/Link/Receive/Legacy.antt =====
-- A legacy frame from `send_legacy_frame` to `receive_legacy_frame` of src/raspike_protocol.c.
use libraspike_art.Base.{
  ℕ, ◌≤◌, ◌<◌, ◌≡◌, refl, ap, ◌∙◌, List, [], ◌∷◌, ◌++◌, some, true, ltb-false, ltb-true, length,
  drop, pos, done, bind_done, arith,
}
use libraspike_art.Wire.Word.{u8}
use libraspike_art.Wire.Layout.{cmd_start}
use libraspike_art.Com.Os.{Round}
use libraspike_art.Com.Usb.{Descriptor}
use libraspike_art.Com.Usb.Prompt.{IsOpen, Prompt}
use libraspike_art.Link.State.{Counter, stats_increment}
use libraspike_art.Link.Ports.{is_valid_port}
use libraspike_art.Link.Process.{process_command}
use libraspike_art.Link.System.{System, on_link}
use libraspike_art.Link.Send.{legacy_frame}
use libraspike_art.Link.Receive.{receive_bytes, receive_legacy_frame}
use libraspike_art.Link.Receive.Frames.{received, receive_list}

abbrev pub counted : System → System
counted s = record s { link = stats_increment Counter.rx_legacy_frames s.link }

module _ (port cmd : ℕ) (payload : List ℕ) (valid : is_valid_port port ≡ true)
    (some_bytes : 0 < length payload) (fits : length payload ≤ 255) (d : Descriptor) (r₁ r₂ : Round)
    (script : List Round) (rest : List ℕ) (is_open : IsOpen d) (prompt₁ : Prompt 3 r₁)
    (prompt₂ : Prompt (length payload) r₂) where
  abbrev header : List ℕ
  header = cmd ∷ length payload ∷ port ∷ []

  legacy_frame_lem : legacy_frame port cmd payload ≡ cmd_start ∷ (header ++ payload)
  unfolding legacy_frame
  legacy_frame_lem = let e : u8 (length payload) ≡ length payload = omega (arith, fits) in rw e refl

  -- A legacy frame with a payload, as `send_legacy_frame` makes it for a valid port, is received
  -- whole, counted, and handed to `process_command` with the port, the command and the payload that
  -- were sent and the session's own number, if the system hands out its bytes at once.
  pub receive_legacy_frame-legacy_frame :
      (s : System)
      → s.link.desc ≡ some d
      → cmd_start ∷ s.line.os.input ≡ legacy_frame port cmd payload ++ rest
      → s.line.os.script ≡ r₁ ∷ r₂ ∷ script
      → receive_legacy_frame s
        ≡ on_link
            (process_command port cmd 0 0 s.link.session_id payload)
            (counted (received r₂ script rest (received r₁ (r₂ ∷ script) (payload ++ rest) s)))
  unfolding receive_legacy_frame
  receive_legacy_frame-legacy_frame s desc input rounds =
      bind_done (receive_bytes 3 1000 s) _ (pos 3, header) s' first
      ∙ rw
          (
            ltb-false 256 (length payload) (omega (arith, fits)),
            valid,
            ltb-true 0 (length payload) some_bytes,
          )
          (bind_done (receive_bytes (length payload) 1000 s') _ (pos (length payload), payload)
            (received r₂ script rest s') second)
    where
      s' : System
      s' = received r₁ (r₂ ∷ script) (payload ++ rest) s

      first : receive_bytes 3 1000 s ≡ done (pos 3, header) s'
      first =
          receive_list d r₁ (r₂ ∷ script) header (payload ++ rest) (omega arith) is_open prompt₁ s
            desc (ap (drop 1) (input ∙ ap (λ f. f ++ rest) legacy_frame_lem)) rounds

      second :
          receive_bytes (length payload) 1000 s'
          ≡ done (pos (length payload), payload) (received r₂ script rest s')
      second = receive_list d r₂ script payload rest some_bytes is_open prompt₂ s' desc refl refl
