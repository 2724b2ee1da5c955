-- ===== src/Device/Common/Keeps.antt =====
-- What `GET_DEVICE_COMMON` of src/raspike_internal.h does to the session.
use libraspike_art.Base.{
  ℕ, not, ◌||◌, ◌==◌, Option, none, some, pos, ◌==ℤ◌, Post, bind-Post, either-Post, or-Post,
}
use libraspike_art.Wire.Word.{u8}
use libraspike_art.Wire.Command.{make_cmd}
use libraspike_art.Wire.Layout.{port_none}
use libraspike_art.Com.Fd.{null}
use libraspike_art.Link.State.{Link}
use libraspike_art.Link.Ports.{is_valid_port, get_device}
use libraspike_art.Link.System.{System}
use libraspike_art.Link.System.Keeps.{Stable, Holds}
use libraspike_art.Link.Request.{request}
use libraspike_art.Link.Request.Keeps.{request-Holds}
use libraspike_art.Device.Common.{claim_device, get_device_common, on_entry, port_to_raspike}

module _ (bad : Type 0) (P : Link → Type 0) (stable : Stable bad P) where
  abbrev Held : {A : Type 0} → A → System → Type 0
  Held = Holds bad P stable

  claim-Holds :
      (kind port i : ℕ) (s : System) → P s.link → Post bad Held (claim_device kind port i s)
  unfolding claim_device
  claim-Holds kind port i s h =
      either-Post bad Held ((s.link.ports i).device.device_type == kind) _ _ h (
        either-Post bad Held (not ((s.link.ports i).device.device_type == 0)) _ _ h (
          bind-Post bad Held Held (request port (u8 (make_cmd kind 0)) (null (pos 0)) s) _
            (request-Holds bad P stable port (u8 (make_cmd kind 0)) (null (pos 0)) s h)
            (λ ret t k.
              or-Post bad Held (not (ret ==ℤ pos 1)) _ _ t k (stable.entries _ t.link k))))

  pub get_device_common-Holds :
      (kind port : ℕ) (s : System) → P s.link → Post bad Held (get_device_common kind port s)
  unfolding get_device_common
  get_device_common-Holds kind port s h =
      or-Post bad Held (not (is_valid_port r_port) || r_port == port_none) _ _ s h
        (entry (get_device r_port))
    where
      r_port : ℕ
      r_port = port_to_raspike port

      entry : (o : Option ℕ) → Post bad Held (on_entry o (claim_device kind r_port) s)
      entry none = h
      entry (some i) = claim-Holds kind r_port i s h
