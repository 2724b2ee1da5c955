-- ===== src/Device/Motor/Reset.antt =====
-- `pup_motor_reset_count` of src/raspike_motor.c on the session.
use libraspike_art.Base.{
  ℕ, ◌+◌, refl, ◌∙◌, Option, none, some, replicate, splice, length-splice, pos, ◌==ℤ◌, Post,
  bind-Post, or-Post,
}
use libraspike_art.Wire.Layout.Status
use libraspike_art.Wire.Layout.Device as Field
use libraspike_art.Wire.Command.{cmd_mot_rst}
use libraspike_art.Com.Fd.{null}
use libraspike_art.Link.State.{Link}
use libraspike_art.Link.System.{System}
use libraspike_art.Link.System.Keeps.{Stable}
use libraspike_art.Link.Request.{request}
use libraspike_art.Link.Request.Keeps.{request-Holds}
use libraspike_art.Link.Lifecycle.Fresh.{Ready}
use libraspike_art.Device.Motor.{motor_reset_count, clear_count, port_of}

pub clear_count-Ready : (port : ℕ) (l : Link) → Ready l → Ready (clear_count port l)
clear_count-Ready port l h complete is_open =
    let live = h complete is_open in
    let k = live.has_status in
    record {
      has_status = record {
        status_bytes =
            splice (Status.port_data port + Field.mot_count) (replicate 4 0) k.status_bytes;
        allocated = rw k.allocated refl;
        status_size =
            length-splice (Status.port_data port + Field.mot_count) (replicate 4 0) k.status_bytes
            ∙ k.status_size;
        telemetry_size = k.telemetry_size;
      };
      version_2 = live.version_2;
      has_session = live.has_session;
    }

-- It keeps what the requests of a session keep, and the reset of a count.
module _ (P : Link → Type 0) (stable : Stable Unit P)
    (clears : (port : ℕ) (l : Link) → P l → P (clear_count port l)) where
  pub motor_reset_count-Holds :
      (motor : Option ℕ) (s : System)
      → P s.link
      → Post Unit (λ _ t. P t.link) (motor_reset_count motor s)
  unfolding motor_reset_count
  motor_reset_count-Holds none s h = h
  motor_reset_count-Holds (some i) s h =
      bind-Post Unit (λ _ t. P t.link) (λ _ t. P t.link)
        (request (port_of s i) cmd_mot_rst (null (pos 0)) s) _
        (request-Holds Unit P stable (port_of s i) cmd_mot_rst (null (pos 0)) s h)
        (λ ret t k.
          or-Post Unit (λ _ t. P t.link) (ret ==ℤ pos 1) _ _ t
            (clears (t.link.ports i).device.port_id t.link k) k)
