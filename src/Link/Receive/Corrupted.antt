-- ===== src/Link/Receive/Corrupted.antt =====
-- A frame of version 2 with a wrong byte: the check sum in `receive_v2_frame` of
-- src/raspike_protocol.c.
use libraspike_art.Base.{
  ℕ, suc, ◌+◌, ◌<◌, ◌≡◌, ◌≢◌, refl, sym, ap, subst, ◌∙◌, List, [], ◌∷◌, ◌++◌, append-nil,
  append_assoc, zero, ◌≤◌, some, ltb-false, if◌then◌else◌, pos, is_neg, pure, length-take,
  length-drop, take-append-drop, ==-false, length, length-append, take, drop, take-length_append,
  drop-length_append, neg, done, arith,
}
use libraspike_art.Base.Errno.{ebadmsg}
use libraspike_art.Wire.Word.{byte, get_u16, put_u16}
use libraspike_art.Wire.Word.Round.{IsBytes, get_u16-put_u16}
use libraspike_art.Wire.Crc.{crc16}
use libraspike_art.Wire.Crc.Detects.{crc16-lt, crc16_detects}
use libraspike_art.Wire.Layout.{v2_start, v2_version, v2_offset_version, v2_offset_size}
use libraspike_art.Com.Os.{Round}
use libraspike_art.Com.Usb.{Descriptor}
use libraspike_art.Com.Usb.Prompt.{IsOpen, Prompt}
use libraspike_art.Link.Receive.Frames.{received, receive_list, and_then}
use libraspike_art.Link.State.{Counter, stats_increment}
use libraspike_art.Link.System.{System}
use libraspike_art.Link.Receive.{receive_bytes, check_v2_frame, read_v2_frame, receive_v2_frame}

IsBytes-insert :
    (xs ys : List ℕ) (d : ℕ) → IsBytes xs → IsBytes ys → d < 256 → IsBytes (xs ++ (d ∷ ys))
IsBytes-insert [] ys d hx hy hd = (hd, hy)
IsBytes-insert (x ∷ xs) ys d hx hy hd = (hx.0, IsBytes-insert xs ys d hx.1 hy hd)

length-insert : (xs ys : List ℕ) (d : ℕ) → length (xs ++ (d ∷ ys)) ≡ length xs + suc (length ys)
length-insert xs ys d = length-append xs (d ∷ ys)

byte-take : (n i : ℕ) (xs : List ℕ) → i < n → byte (take n xs) i ≡ byte xs i
byte-take zero i xs h = absurd (omega arith)
byte-take (suc n) i [] h = refl
byte-take (suc n) zero (x ∷ xs) h = refl
byte-take (suc n) (suc i) (x ∷ xs) h = byte-take n i xs (omega arith)

module _ (xs ys : List ℕ) (d e : ℕ) (xs_bytes : IsBytes xs) (ys_bytes : IsBytes ys) (d_lt : d < 256)
    (e_lt : e < 256) (differ : d ≢ e) where
  abbrev sent : List ℕ
  sent = xs ++ (d ∷ ys)

  abbrev arrived : List ℕ
  arrived = xs ++ (e ∷ ys)

  abbrev sum : List ℕ
  sum = put_u16 (crc16 sent)

  sum_read :
      (size : ℕ)
      → length arrived ≡ 13 + size
      → get_u16 (drop (14 + size) (v2_start ∷ (arrived ++ sum))) ≡ crc16 sent
  sum_read size count =
      let place : suc (length arrived) ≡ 14 + size = omega (arith, count) in
      let behind : drop (14 + size) (v2_start ∷ (arrived ++ sum)) ≡ sum =
        subst (λ n. drop n (v2_start ∷ (arrived ++ sum)) ≡ sum) place
          (drop-length_append arrived sum) in
      rw (behind, sym (append-nil sum))
        (get_u16-put_u16 (crc16 sent) []
          (crc16-lt sent (IsBytes-insert xs ys d xs_bytes ys_bytes d_lt)))

  sum_computed :
      (size : ℕ)
      → length arrived ≡ 13 + size
      → crc16 (take (13 + size) (arrived ++ sum)) ≡ crc16 arrived
  sum_computed size count =
      ap crc16
        (subst (λ n. take n (arrived ++ sum) ≡ arrived) count (take-length_append arrived sum))

  -- The check of a frame that was read whole.
  check_v2_frame-corrupted :
      (size : ℕ) (s : System)
      → length xs + suc (length ys) ≡ 13 + size
      → check_v2_frame (v2_start ∷ ((xs ++ (e ∷ ys)) ++ put_u16 (crc16 (xs ++ (d ∷ ys))))) size s
        ≡ done (neg ebadmsg) (record s { link = stats_increment Counter.crc_errors s.link })
  unfolding check_v2_frame
  check_v2_frame-corrupted size s count =
      let whole : length arrived ≡ 13 + size = length-insert xs ys e ∙ count in
      rw
        (
          sum_read size whole,
          sum_computed size whole,
          ==-false (crc16 sent) (crc16 arrived)
              (crc16_detects xs ys d e xs_bytes ys_bytes d_lt e_lt differ),
        )
        refl

  module _ (size : ℕ) (d₀ : Descriptor) (r₁ r₂ : Round) (script : List Round) (rest : List ℕ)
      (count : length xs + suc (length ys) ≡ 13 + size) (fits : size ≤ 240)
      (version : byte (v2_start ∷ (xs ++ (e ∷ ys))) v2_offset_version ≡ v2_version)
      (size_byte : byte (v2_start ∷ (xs ++ (e ∷ ys))) v2_offset_size ≡ size) (is_open : IsOpen d₀)
      (prompt₁ : Prompt 13 r₁) (prompt₂ : Prompt (size + 2) r₂) where
    abbrev header : List ℕ
    header = take 13 arrived

    abbrev ending : List ℕ
    ending = drop 13 arrived ++ sum

    count_arrived : length arrived ≡ 13 + size
    count_arrived = length-insert xs ys e ∙ count

    header-length : length header ≡ 13
    header-length = let cut = length-take 13 arrived in omega (arith, cut, count_arrived)

    ending-length : length ending ≡ size + 2
    unfolding put_u16
    ending-length =
        let behind = length-append (drop 13 arrived) sum in
        let dropped = length-drop 13 arrived in omega (arith, behind, dropped, count_arrived)

    rejoined : header ++ ending ≡ arrived ++ sum
    rejoined =
        sym (append_assoc header (drop 13 arrived) sum)
        ∙ ap (λ zs. zs ++ sum) (take-append-drop 13 arrived)

    -- The state after the two reads.
    abbrev taken_whole : System → System
    taken_whole s = received r₂ script rest (received r₁ (r₂ ∷ script) (ending ++ rest) s)

    read_v2_frame-corrupted :
        (s : System)
        → s.link.desc ≡ some d₀
        → s.line.os.input ≡ ending ++ rest
        → s.line.os.script ≡ r₂ ∷ script
        → read_v2_frame header s
          ≡ done (neg ebadmsg) (record (received r₂ script rest s) {
            link = stats_increment Counter.crc_errors s.link;
          })
    unfolding read_v2_frame
    read_v2_frame-corrupted s desc input rounds =
        rw
          (
            byte-take 13 0 arrived (omega arith),
            byte-take 13 4 arrived (omega arith),
            version,
            size_byte,
            ltb-false 240 size fits,
          )
          (ap
              (and_then (λ p.
                if is_neg p.0 then pure p.0 else check_v2_frame (v2_start ∷ (header ++ p.1)) size))
              whole
            ∙ ap (λ f. check_v2_frame (v2_start ∷ f) size (received r₂ script rest s)) rejoined
            ∙ check_v2_frame-corrupted size (received r₂ script rest s) count)
      where
        whole :
            receive_bytes (size + 2) 1000 s
            ≡ done (pos (size + 2), ending) (received r₂ script rest s)
        whole =
            subst (λ n. receive_bytes n 1000 s ≡ done (pos n, ending) (received r₂ script rest s))
              ending-length
              (receive_list d₀ r₂ script ending rest (omega (arith, ending-length)) is_open
                (subst (λ n. Prompt n r₂) (sym ending-length) prompt₂) s desc input rounds)

    -- A frame of version 2, of at most 240 bytes of payload, of which one byte was changed on the way
    -- that is neither the start byte, the version, the size nor in the check sum, is read whole by
    -- `receive_v2_frame`, if the system hands out its bytes at once, and refused with -EBADMSG. It is
    -- counted as an error of the check sum, and of the session nothing else changes: no command is
    -- handled. The bytes behind the frame stay.
    pub receive_v2_frame-corrupted :
        (s : System)
        → s.link.desc ≡ some d₀
        → s.line.os.input ≡ ((xs ++ (e ∷ ys)) ++ put_u16 (crc16 (xs ++ (d ∷ ys)))) ++ rest
        → s.line.os.script ≡ r₁ ∷ r₂ ∷ script
        → receive_v2_frame s
          ≡ done
              (neg ebadmsg)
              (record (taken_whole s) { link = stats_increment Counter.crc_errors s.link })
    unfolding receive_v2_frame
    receive_v2_frame-corrupted s desc input rounds =
        ap (and_then (λ p. if is_neg p.0 then pure p.0 else read_v2_frame p.1)) first
        ∙ read_v2_frame-corrupted (received r₁ (r₂ ∷ script) (ending ++ rest) s) desc refl refl
      where
        bytes_there : s.line.os.input ≡ header ++ (ending ++ rest)
        bytes_there = input ∙ ap (λ f. f ++ rest) (sym rejoined) ∙ append_assoc header ending rest

        first :
            receive_bytes 13 1000 s
            ≡ done (pos 13, header) (received r₁ (r₂ ∷ script) (ending ++ rest) s)
        first =
            subst
              (λ n.
                receive_bytes n 1000 s
                ≡ done (pos n, header) (received r₁ (r₂ ∷ script) (ending ++ rest) s))
              header-length
              (receive_list d₀ r₁ (r₂ ∷ script) header (ending ++ rest)
                (omega (arith, header-length)) is_open
                (subst (λ n. Prompt n r₁) (sym header-length) prompt₁) s desc bytes_there rounds)
