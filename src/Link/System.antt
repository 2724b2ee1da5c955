-- ===== src/Link/System.antt =====
-- The whole state of the library: the serial line (src/raspike_com.c), the session
-- (src/raspike_protocol.c), and what the other threads do next.
pub mod Keeps
use libraspike_art.Base.{
  ℕ, ◌-◌, List, [], ◌∷◌, Option, none, some, Bool, true, false, if◌then◌else◌, neg, Action, done,
  within, ◌>>=◌, pure,
}
use libraspike_art.Base.Errno.{enotconn}
use libraspike_art.Com.Usb.{Com, Descriptor}
use libraspike_art.Link.State.{Link}
use libraspike_art.Link.Ports.{reset_port_state}
use libraspike_art.Link.Process.{process_command}

-- The arguments of `process_command`.
pub record Command : Type 0 where
  pub port : ℕ
  pub cmd : ℕ
  pub flags : ℕ
  pub sequence : ℕ
  pub session : ℕ
  pub payload : List ℕ

-- What another thread does between two steps of a call: the receiver handles a command or leaves
-- `raspike_prot_receive`, or `raspike_prot_shutdown` goes on: it sets the stop flag, takes the
-- descriptor away and resets the entries, frees the status, and ends the session.
pub data Other : Type 0 where
  handles : Command → Other
  leaves : Other
  stops : Other
  cancels : Other
  frees : Other
  ends : Other

-- What the other threads do in one wait for a condition, in one sleep of `hub_speaker_play_tone` or
-- before one attempt of a request; `outcome` is what `pthread_cond_timedwait` then returns.
pub record Turn : Type 0 where
  pub others : List Other
  pub outcome : ℕ

pub record System : Type 0 where
  pub line : Com
  pub link : Link
  pub turns : List Turn

abbrev pub on_link : {A : Type 0} → Action Link A → Action System A
on_link = within System.link (λ l s. record s { link = l })

-- A step that cannot fail.
abbrev pub update_link : (Link → Link) → Action System (Unit {0})
update_link f s = done tt (record s { link = f s.link })

-- A function of raspike_com.c on `fgDesc`.
abbrev pub on_desc : {A : Type 0} → (Option Descriptor → Action Com A) → Action System A
on_desc f s = within System.line (λ c s. record s { line = c }) (f s.link.desc) s

abbrev leave_receive : Link → Link
leave_receive l = record l { active_receivers = l.active_receivers - 1 }

abbrev pub is_null : {A : Type 0} → Option A → Bool
is_null none = true
is_null (some _) = false

-- The end of `raspike_prot_shutdown`, from the status on.
abbrev pub free_status : Link → Link
free_status l = record l { status = none }

abbrev pub clear_session : Link → Link
clear_session l = record l { handshake_complete = false; use_protocol_v2 = false; session_id = 0 }

-- In the order of the code: no receiver is inside once the descriptor is taken away, and the status is
-- freed and the session ended only after that. (Where another thread has started the next session
-- meanwhile, the end of a shutdown is not among the steps.)
unfoldable pub run_other : Other → Action Link (Unit {0})
unfolding process_command reset_port_state
run_other (handles c) l =
    if is_null l.desc
    then done tt l
    else (process_command c.port c.cmd c.flags c.sequence c.session c.payload >>= λ _. pure tt) l
run_other leaves l = done tt (leave_receive l)
run_other stops l = done tt (record l { stop_communication = true })
run_other cancels l = done tt (reset_port_state (neg enotconn) true (record l { desc = none }))
run_other frees l = if is_null l.desc then done tt (free_status l) else done tt l
run_other ends l = if is_null l.desc then done tt (clear_session l) else done tt l

unfoldable pub run_others : List Other → Action Link (Unit {0})
unfolding run_other
run_others [] l = done tt l
run_others (o ∷ os) l = (run_other o >>= λ _. run_others os) l

-- The other threads get their turn, if they have one.
abbrev pub maybe_turn : List Turn → Action System (Unit {0})
maybe_turn [] s = done tt s
maybe_turn (t ∷ turns) s = on_link (run_others t.others) (record s { turns = turns })

-- Between two steps of a call, where the code holds no mutex.
unfoldable pub yield : Action System (Unit {0})
unfolding run_others
yield s = maybe_turn s.turns s
