-- ===== src/Link/Lifecycle/Negotiated.antt =====
-- A hello that is accepted: `receive_legacy_hello` of src/raspike_protocol.c.
use libraspike_art.Base.{
  ℕ, ◌≡◌, ◌≢◌, refl, List, drop, Bool, true, false, not, ◌||◌, ◌==◌, ==_iff, ltb, bit_and,
  Bool-cases, inl, inr, ℤ, is_neg, Ends, bind-Ends, Ends-trivial,
}
use libraspike_art.Wire.Word.{byte, get_u16, get_u32}
use libraspike_art.Wire.Layout.{
  v2_version, v2_cap_framing, port_none, v2_hello_payload_size, cmd_start,
}
use libraspike_art.Wire.Layout.Status
use libraspike_art.Wire.Command.{cmd_link_hello}
use libraspike_art.Link.System.{System}
use libraspike_art.Link.Receive.{receive_bytes}
use libraspike_art.Link.Handshake.{scan_for_byte, accept_hello, receive_legacy_hello}

-- The session runs version 2 and has a number.
pub record Negotiated (s : System) : Type 0 where
  pub version_2 : s.link.use_protocol_v2 ≡ true
  pub has_session : s.link.session_id ≢ 0

-- If the result is no error.
abbrev pub Succeeds : ℤ → System → Type 0
Succeeds ret s = is_neg ret ≡ false → Negotiated s

||-none : (a b c : Bool) → (a || b || c) ≡ false → b ≡ false
||-none a false c h = refl
||-none true true c h = absurd cc
||-none false true true h = absurd cc
||-none false true false h = absurd cc

Succeeds-error : (ret : ℤ) (s : System) → is_neg ret ≡ true → Succeeds ret s
Succeeds-error ret s e h = absurd cc

accept_hello-Succeeds : (payload : List ℕ) (s : System) → Ends Succeeds (accept_hello payload s)
unfolding accept_hello
accept_hello-Succeeds payload s = elim (Bool-cases (not (byte payload 0 == v2_version))) [
  | inl e ↦ rw e (λ h. absurd cc)
  | inr e ↦ elim (Bool-cases unfit) [
    | inl e' ↦ rw (e, e') (λ h. absurd cc)
    | inr e' ↦
        rw (e, e')
          (λ h. record {
            version_2 = refl;
            has_session = λ zero_session.
                let test = (==_iff (get_u32 (drop 4 payload)) 0).1 zero_session in
                let fails =
                  ||-none (bit_and (byte payload 1) v2_cap_framing == 0)
                    (get_u32 (drop 4 payload) == 0) (ltb (get_u16 (drop 2 payload)) Status.size)
                    e' in
                absurd cc;
          })
  ]
]
  where
    unfit : Bool
    unfit =
        bit_and (byte payload 1) v2_cap_framing == 0
        || get_u32 (drop 4 payload) == 0
        || ltb (get_u16 (drop 2 payload)) Status.size

abbrev Any : {A : Type 0} → A → System → Type 0
Any a s = Unit

pub receive_legacy_hello-Succeeds : (s : System) → Ends Succeeds (receive_legacy_hello s)
unfolding receive_legacy_hello
receive_legacy_hello-Succeeds s =
    bind-Ends Any Succeeds (scan_for_byte cmd_start 2000 s) _ (Ends-trivial Any _ (λ a s. tt))
      (λ found t _. elim (Bool-cases (is_neg found)) [
        | inl e ↦ rw e (Succeeds-error found t e)
        | inr e ↦ rw e (
            bind-Ends Any Succeeds (receive_bytes 3 1000 t) _ (Ends-trivial Any _ (λ a s. tt))
              (λ p u _. elim (Bool-cases (is_neg p.0)) [
                | inl e' ↦ rw e' (Succeeds-error p.0 u e')
                | inr e' ↦
                    elim (Bool-cases (
                      not (byte p.1 0 == cmd_link_hello)
                      || not (byte p.1 2 == port_none)
                      || not (byte p.1 1 == v2_hello_payload_size))) [
                        | inl e'' ↦ rw (e', e'') (λ h. absurd cc)
                        | inr e'' ↦
                            rw (e', e'')
                              (bind-Ends Any Succeeds (receive_bytes v2_hello_payload_size 1000 u) _
                                (Ends-trivial Any _ (λ a s. tt))
                                (λ q v _. elim (Bool-cases (is_neg q.0)) [
                                  | inl f ↦ rw f (Succeeds-error q.0 v f)
                                  | inr f ↦ rw f (accept_hello-Succeeds q.1 v)
                                ]))
                      ]
              ]))
      ])
