-- ===== src/Link/Request/Keeps.antt =====
-- What a request does to the session, src/raspike_protocol.c, lines 477 to 562, whatever the other
-- threads do meanwhile.
use libraspike_art.Base.{
  ℕ, zero, suc, not, ◌&&◌, List, [], ◌∷◌, Option, none, some, Bool, true, ltb, ◌==◌, Bool-cases,
  inl, inr, ℤ, neg, is_neg, ◌==ℤ◌, Post, bind-Post, either-Post, or-Post,
}
use libraspike_art.Base.Errno.{etimedout, eintr}
use libraspike_art.Wire.Layout.{v2_flag_high_priority}
use libraspike_art.Com.Fd.{Buf}
use libraspike_art.Link.State.{Link, Counter, stats_increment}
use libraspike_art.Link.Ports.{is_valid_port, get_device, next_sequence}
use libraspike_art.Link.System.{System, Turn, run_others, on_link, yield}
use libraspike_art.Link.Send.{send_frame}
use libraspike_art.Link.Request.{
  begin_request, wait_for_ack, attempt_loop, finish_request, answers, max_attempts, request_at,
  on_entry, request,
}
use libraspike_art.Link.System.Keeps.{Stable, Holds, run_others-Post, on_link-Holds, yield-Holds}
use libraspike_art.Link.Send.Keeps.{send_frame-Holds}

module _ (bad : Type 0) (P : Link → Type 0) (stable : Stable bad P) where
  abbrev Held : {A : Type 0} → A → System → Type 0
  Held = Holds bad P stable

  wait_for_ack-Holds :
      (turns : List Turn) (i : ℕ) (result : ℤ) (s : System)
      → P s.link
      → Post bad Held (wait_for_ack turns i result s)
  unfolding wait_for_ack
  wait_for_ack-Holds [] i result s h = either-Post bad Held (s.link.ports i).pending _ _ tt h
  wait_for_ack-Holds (t ∷ turns) i result s h =
      either-Post bad Held (s.link.ports i).pending _ _
        (bind-Post bad Held Held (on_link (run_others t.others) (record s { turns = turns })) _
          (on_link-Holds bad P stable (run_others t.others s.link) (record s { turns = turns })
            (run_others-Post bad P stable t.others s.link h))
          (λ a u k. or-Post bad Held (t.outcome == etimedout) _ _ u k (
            or-Post bad Held (not (t.outcome == 0) && not (t.outcome == eintr)) _ _ u k
              (wait_for_ack-Holds turns i result u k))))
        h

  attempt_loop-Holds :
      (left i port cmd : ℕ) (payload : Buf) (sequence : ℕ) (result : ℤ) (s : System)
      → P s.link
      → Post bad Held (attempt_loop left i port cmd payload sequence result s)
  unfolding attempt_loop
  attempt_loop-Holds zero i port cmd payload sequence result s h = h
  attempt_loop-Holds (suc left) i port cmd payload sequence result s h =
      bind-Post bad Held Held (yield s) _ (yield-Holds bad P stable s h) (λ _ t k.
        or-Post bad Held (not (t.link.ports i).pending) _ _ t k (
          bind-Post bad Held Held
            (send_frame port cmd payload sequence v2_flag_high_priority true t) _
            (send_frame-Holds bad P stable port cmd payload sequence v2_flag_high_priority true t k)
            (λ sent u m. or-Post bad Held (is_neg sent) _ _ u m (
              bind-Post bad Held Held (wait_for_ack u.turns i result u) _
                (wait_for_ack-Holds u.turns i result u m)
                (λ r v n. or-Post bad Held (not (v.link.ports i).pending) _ _ v n (
                  or-Post bad Held (ltb 0 left) _ _ v
                    (attempt_loop-Holds left i port cmd payload sequence r _
                      (stable.counts Counter.request_retries v.link n))
                    (attempt_loop-Holds left i port cmd payload sequence r v n)))))))

  finish-Holds :
      (i cmd sequence : ℕ) (result : ℤ) (completed : Bool) (l : Link)
      → P l
      → P ((finish_request i cmd sequence result completed l).0)
  unfolding finish_request
  finish-Holds i cmd sequence result completed l h =
      elim (Bool-cases (completed && ((l.ports i).ack_cmd ==ℤ neg 1))) [
        | inl e ↦ rw e (stable.entries _ l h)
        | inr e ↦ elim (Bool-cases (completed && answers l (l.ports i) cmd sequence)) [
          | inl e' ↦ rw (e, e') (stable.entries _ l h)
          | inr e' ↦ elim (Bool-cases (result ==ℤ neg etimedout)) [
            | inl e'' ↦
                rw (e, e', e'')
                  (stable.entries _ (stats_increment Counter.request_timeouts l)
                    (stable.counts Counter.request_timeouts l h))
            | inr e'' ↦ rw (e, e', e'') (stable.entries _ l h)
          ]
        ]
      ]

  pub request_at-Holds :
      (i port cmd : ℕ) (payload : Buf) (s : System)
      → P s.link
      → Post bad Held (request_at i port cmd payload s)
  unfolding request_at next_sequence begin_request
  request_at-Holds i port cmd payload s h =
      bind-Post bad Held Held _ _
        (attempt_loop-Holds (max_attempts s.link) i port cmd payload s.link.next_sequence
          (neg etimedout) _
          (stable.entries _ (record s.link { next_sequence = _ }) (stable.sequences s.link h)))
        (λ (result, completed) t k.
          finish-Holds i cmd s.link.next_sequence result completed t.link k)

  pub request-Holds :
      (port cmd : ℕ) (payload : Buf) (s : System)
      → P s.link
      → Post bad Held (request port cmd payload s)
  unfolding request
  request-Holds port cmd payload s h =
      or-Post bad Held (not (is_valid_port port)) _ _ s h (entry (get_device port))
    where
      entry : (o : Option ℕ) → Post bad Held (on_entry o (λ i. request_at i port cmd payload) s)
      entry none = h
      entry (some i) = request_at-Holds i port cmd payload s h
