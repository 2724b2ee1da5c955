-- ===== src/Link/Receive/Frames.antt =====
-- A frame of version 2 from `send_v2_frame` to `receive_v2_frame` of src/raspike_protocol.c.
use libraspike_art.Base.{
  ℕ, suc, ◌+◌, ◌^◌, ◌≤◌, ◌<◌, ◌≡◌, refl, sym, ap, subst, ◌∙◌, List, [], ◌∷◌, ◌++◌, append_assoc,
  some, ltb-false, if◌then◌else◌, length, length-append, drop, ℤ, pos, is_neg, Outcome, Action,
  pure, done, blocked, fault, arith,
}
use libraspike_art.Wire.Word.{put_u16, put_u32}
use libraspike_art.Wire.Crc.{crc16}
use libraspike_art.Wire.Layout.{v2_start}
use libraspike_art.Com.Os.{Round}
use libraspike_art.Com.Usb.{Descriptor, com_receive_timeout}
use libraspike_art.Com.Usb.Prompt.{IsOpen, Prompt, taken, com_receive_timeout_all}
use libraspike_art.Link.Process.{process_command}
use libraspike_art.Link.System.{System, on_link}
use libraspike_art.Link.Send.{v2_body, v2_frame}
use libraspike_art.Link.Receive.{receive_bytes, check_v2_frame, read_v2_frame, receive_v2_frame}
use libraspike_art.Link.Receive.Checked.{Sendable, head, v2_frame_lem, check_v2_frame_lem}

-- The state after a round of the line has brought bytes and left `rest`.
abbrev pub received : Round → List Round → List ℕ → System → System
received r script rest s = record s { line = record s.line { os = taken r script rest s.line.os } }

pub receive_bytes_all :
    (timeout_ms : ℕ)
    → 100 ≤ timeout_ms
    → timeout_ms < 2 ^ 31
    → (d : Descriptor) (r : Round) (script : List Round) (b : ℕ) (bs rest : List ℕ) → IsOpen d
    → Prompt (suc (length bs)) r
    → (s : System) → s.link.desc ≡ some d
    → s.line.os.input ≡ b ∷ bs ++ rest
    → s.line.os.script ≡ r ∷ script
    → receive_bytes (suc (length bs)) timeout_ms s
      ≡ done (pos (suc (length bs)), b ∷ bs) (received r script rest s)
unfolding receive_bytes
receive_bytes_all timeout_ms long short d r script b bs rest is_open prompt s desc input rounds =
    ap
      (λ o.
        elim (com_receive_timeout o (suc (length bs)) timeout_ms s.line)
          as (λ _. Outcome System (ℤ × List ℕ)) [
            | done a c ↦ done a (record s { line = c })
            | blocked ↦ blocked
            | fault ↦ fault
          ])
      desc
    ∙ ap
        (λ o. elim o as (λ _. Outcome System (ℤ × List ℕ)) [
          | done a c ↦ done a (record s { line = c })
          | blocked ↦ blocked
          | fault ↦ fault
        ])
        (com_receive_timeout_all d r script b bs rest is_open prompt timeout_ms s.line input rounds
          long short)

-- What `>>=` does with an outcome.
abbrev pub and_then :
    (ℤ × List ℕ → Action System ℤ) → Outcome System (ℤ × List ℕ) → Outcome System ℤ
and_then k o = elim o [ done a s ↦ k a s | blocked ↦ blocked | fault ↦ fault ]

pub receive_list :
    (d : Descriptor) (r : Round) (script : List Round) (p rest : List ℕ)
    → 0 < length p
    → IsOpen d
    → Prompt (length p) r
    → (s : System) → s.link.desc ≡ some d
    → s.line.os.input ≡ p ++ rest
    → s.line.os.script ≡ r ∷ script
    → receive_bytes (length p) 1000 s ≡ done (pos (length p), p) (received r script rest s)
receive_list d r script [] rest h is_open prompt s desc input rounds = absurd (omega arith)
receive_list d r script (b ∷ bs) rest h is_open prompt s desc input rounds =
    receive_bytes_all 1000 (omega arith) (omega arith) d r script b bs rest is_open prompt s desc
      input rounds

module _ (port cmd flags sequence session : ℕ) (payload : List ℕ)
    (sendable : Sendable port cmd flags sequence session payload) (d : Descriptor) (r₁ r₂ : Round)
    (script : List Round) (rest : List ℕ) (is_open : IsOpen d) (prompt₁ : Prompt 13 r₁)
    (prompt₂ : Prompt (length payload + 2) r₂) where
  abbrev header : List ℕ
  header = head port cmd flags (length payload) sequence session

  abbrev ending : List ℕ
  ending = payload ++ put_u16 (crc16 (v2_body port cmd flags sequence session payload))

  ending-length : length ending ≡ length payload + 2
  unfolding put_u16
  ending-length =
      length-append payload (put_u16 (crc16 (v2_body port cmd flags sequence session payload)))

  read_v2_frame_lem :
      (s : System)
      → s.link.desc ≡ some d
      → s.line.os.input ≡ ending ++ rest
      → s.line.os.script ≡ r₂ ∷ script
      → read_v2_frame header s
        ≡ on_link
            (process_command port cmd flags sequence session payload)
            (received r₂ script rest s)
  unfolding read_v2_frame
  read_v2_frame_lem s desc input rounds = rw (ltb-false 240 (length payload) sendable.fits) (
      ap
        (and_then (λ p.
          if is_neg p.0
          then pure p.0
          else check_v2_frame (v2_start ∷ (header ++ p.1)) (length payload)))
        whole
      ∙ check_v2_frame_lem port cmd flags sequence session payload sendable
          (received r₂ script rest s))
    where
      whole :
          receive_bytes (length payload + 2) 1000 s
          ≡ done (pos (length payload + 2), ending) (received r₂ script rest s)
      whole =
          subst (λ n. receive_bytes n 1000 s ≡ done (pos n, ending) (received r₂ script rest s))
            ending-length
            (receive_list d r₂ script ending rest (omega (arith, ending-length)) is_open
              (subst (λ n. Prompt n r₂) (sym ending-length) prompt₂) s desc input rounds)

  -- A frame of version 2 on the line, as `send_v2_frame` makes it, is received whole and
  -- handed to `process_command` with the fields and the payload that were sent, if the system hands
  -- out its bytes at once.
  pub receive_v2_frame-v2_frame :
      (s : System)
      → s.link.desc ≡ some d
      → v2_start ∷ s.line.os.input ≡ v2_frame port cmd flags sequence session payload ++ rest
      → s.line.os.script ≡ r₁ ∷ r₂ ∷ script
      → receive_v2_frame s
        ≡ on_link
            (process_command port cmd flags sequence session payload)
            (received r₂ script rest (received r₁ (r₂ ∷ script) (ending ++ rest) s))
  unfolding receive_v2_frame put_u32
  receive_v2_frame-v2_frame s desc input rounds =
      ap (and_then (λ p. if is_neg p.0 then pure p.0 else read_v2_frame p.1)) first
      ∙ (read_v2_frame_lem (received r₁ (r₂ ∷ script) (ending ++ rest) s) desc refl refl)
    where
      bytes_there : s.line.os.input ≡ header ++ (ending ++ rest)
      bytes_there =
          ap (drop 1) (
            input
            ∙ ap (λ f. f ++ rest) (v2_frame_lem port cmd flags sequence session payload sendable))
          ∙ append_assoc header ending rest

      first :
          receive_bytes 13 1000 s
          ≡ done (pos 13, header) (received r₁ (r₂ ∷ script) (ending ++ rest) s)
      first =
          receive_list d r₁ (r₂ ∷ script) header (ending ++ rest) (omega arith) is_open prompt₁ s
            desc bytes_there rounds
