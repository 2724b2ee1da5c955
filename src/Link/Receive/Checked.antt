-- ===== src/Link/Receive/Checked.antt =====
-- The bytes of a frame of version 2, and the check of a whole frame: `send_v2_frame` against the second
-- half of `receive_v2_frame` of src/raspike_protocol.c.
use libraspike_art.Base.{
  ℕ, suc, ◌+◌, ◌^◌, ◌≤◌, ◌<◌, ◌≡◌, refl, sym, ap, subst, ◌∙◌, List, [], ◌∷◌, ◌++◌, append-nil,
  ==-refl, length, take, drop, take-length_append, drop-length_append, arith,
}
use libraspike_art.Wire.Word.{u8, get_u16, get_u32, put_u16, put_u32}
use libraspike_art.Wire.Word.Round.{IsBytes, put_u32_bytes, get_u16-put_u16, get_u32-put_u32}
use libraspike_art.Wire.Crc.{crc16}
use libraspike_art.Wire.Crc.Detects.{crc16-lt}
use libraspike_art.Wire.Layout.{v2_start, v2_version}
use libraspike_art.Link.Process.{process_command}
use libraspike_art.Link.System.{System, on_link}
use libraspike_art.Link.Send.{v2_body, v2_frame}
use libraspike_art.Link.Receive.{check_v2_frame}

-- The 13 bytes between the start byte and the payload of `size` bytes.
abbrev pub head : ℕ → ℕ → ℕ → ℕ → ℕ → ℕ → List ℕ
head port cmd flags size sequence session =
    v2_version ∷ flags ∷ cmd ∷ port ∷ size ∷ (put_u32 sequence ++ put_u32 session)

-- The fields of a frame are in the range of their C types.
pub record Sendable (port cmd flags sequence session : ℕ) (payload : List ℕ) : Type 0 where
  pub port_lt : port < 256
  pub cmd_lt : cmd < 256
  pub flags_lt : flags < 256
  pub sequence_lt : sequence < 2 ^ 32
  pub session_lt : session < 2 ^ 32
  pub fits : length payload ≤ 240
  pub is_bytes : IsBytes payload

IsBytes-append : (xs ys : List ℕ) → IsBytes xs → IsBytes ys → IsBytes (xs ++ ys)
IsBytes-append [] ys hx hy = hy
IsBytes-append (x ∷ xs) ys hx hy = (hx.0, IsBytes-append xs ys hx.1 hy)

put_u32-IsBytes : (v : ℕ) → v < 2 ^ 32 → IsBytes (put_u32 v)
put_u32-IsBytes v h =
    rw (put_u32_bytes v h) (omega arith, (omega arith, (omega arith, (omega arith, tt))))

put_u32-length : (v : ℕ) (p : List ℕ) → length (put_u32 v ++ p) ≡ 4 + length p
unfolding put_u32
put_u32-length v p = omega arith

module _ (port cmd flags sequence session : ℕ) (payload : List ℕ)
    (sendable : Sendable port cmd flags sequence session payload) where
  v2_body_lem :
      v2_body port cmd flags sequence session payload
      ≡ head port cmd flags (length payload) sequence session ++ payload
  unfolding v2_body put_u32
  v2_body_lem =
      let e : u8 (length payload) ≡ length payload = omega (arith, sendable.fits) in rw e refl

  v2_body-IsBytes : IsBytes (v2_body port cmd flags sequence session payload)
  v2_body-IsBytes = rw v2_body_lem (
    omega arith,
    (
      sendable.flags_lt,
      (sendable.cmd_lt, (sendable.port_lt, (omega (arith, sendable.fits), words))),
    ),
  )
    where
      words : IsBytes ((put_u32 sequence ++ put_u32 session) ++ payload)
      words =
          IsBytes-append (put_u32 sequence ++ put_u32 session) payload
            (IsBytes-append (put_u32 sequence) (put_u32 session)
              (put_u32-IsBytes sequence sendable.sequence_lt)
              (put_u32-IsBytes session sendable.session_lt))
            sendable.is_bytes

  -- The check sum at the end of a frame is the one of its bytes.
  abbrev pub check_sum : ℕ
  check_sum = crc16 (v2_body port cmd flags sequence session payload)

  abbrev pub tail : List ℕ
  tail = payload ++ put_u16 check_sum

  pub v2_frame_lem :
      v2_frame port cmd flags sequence session payload
      ≡ v2_start ∷ (head port cmd flags (length payload) sequence session ++ tail)
  unfolding v2_frame put_u32
  v2_frame_lem = ap (λ b. v2_start ∷ (b ++ put_u16 check_sum)) v2_body_lem

  sum_read : get_u16 (drop (length payload) tail) ≡ check_sum
  sum_read =
      rw (drop-length_append payload (put_u16 check_sum), sym (append-nil (put_u16 check_sum)))
        (get_u16-put_u16 check_sum []
          (crc16-lt (v2_body port cmd flags sequence session payload) v2_body-IsBytes))

  sum_computed :
      crc16
        (take (13 + length payload) (head port cmd flags (length payload) sequence session ++ tail))
      ≡ check_sum
  unfolding put_u32
  sum_computed =
      let whole : take
            (suc (
              suc
                (suc (suc (suc (suc (suc (suc (suc (suc (suc (suc (suc (length payload))))))))))))))
            (head port cmd flags (length payload) sequence session ++ tail)
          ≡ v2_body port cmd flags sequence session payload =
        ap (λ r. head port cmd flags (length payload) sequence session ++ r)
          (take-length_append payload (put_u16 check_sum))
        ∙ sym v2_body_lem in
      let count : suc
            (suc (suc (suc (suc (suc (suc (suc (suc (suc (suc (suc (suc (length payload)))))))))))))
          ≡ 13 + length payload =
        omega arith in
      ap crc16 (
        subst
          (λ n.
            take n (head port cmd flags (length payload) sequence session ++ tail)
            ≡ v2_body port cmd flags sequence session payload)
          count whole)

  sent_fields :
      (s : System)
      → on_link
          (process_command port cmd flags
            (get_u32 (put_u32 sequence ++ (put_u32 session ++ tail)))
            (get_u32 (put_u32 session ++ tail))
            (take (length payload) tail))
          s
        ≡ on_link (process_command port cmd flags sequence session payload) s
  sent_fields s =
      rw
        (
          get_u32-put_u32 sequence (put_u32 session ++ tail) sendable.sequence_lt,
          get_u32-put_u32 session tail sendable.session_lt,
          take-length_append payload (put_u16 check_sum),
        )
        refl

  sum_place :
      drop
        (14 + length payload)
        (v2_start ∷ (head port cmd flags (length payload) sequence session ++ tail))
      ≡ drop (length payload) tail
  unfolding put_u32
  sum_place =
      let count : suc (
            suc (
              suc
                (suc (suc (suc (suc (suc (suc (suc (suc (suc (suc (suc (length payload))))))))))))))
          ≡ 14 + length payload =
        omega arith in
      subst
        (λ n.
          drop n (v2_start ∷ (head port cmd flags (length payload) sequence session ++ tail))
          ≡ drop (length payload) tail)
        count refl

  pub check_v2_frame_lem :
      (s : System)
      → check_v2_frame
          (v2_start ∷ (head port cmd flags (length payload) sequence session ++ tail))
          (length payload)
          s
        ≡ on_link (process_command port cmd flags sequence session payload) s
  unfolding check_v2_frame put_u32
  check_v2_frame_lem s = rw (sum_place, sum_read, sum_computed, ==-refl check_sum) (sent_fields s)
