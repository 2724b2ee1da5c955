-- ===== src/Device/Common/Claims.antt =====
-- Whose entry a device pointer is: `GET_DEVICE_COMMON` of src/raspike_internal.h.
use libraspike_art.Base.{
  ℕ, ◌≡◌, refl, Option, none, some, not, ◌||◌, ◌==◌, ==_iff, ==-refl, Bool-cases, inl, inr,
  if◌then◌else◌, pos, ◌==ℤ◌, done, Ends, bind-Ends, Ends-trivial, Ends-done, pure, ◌>>=◌, ◌>>◌,
}
use libraspike_art.Wire.Word.{u8}
use libraspike_art.Wire.Command.{make_cmd}
use libraspike_art.Wire.Layout.{port_none}
use libraspike_art.Com.Fd.{null}
use libraspike_art.Link.Ports.{is_valid_port, get_device}
use libraspike_art.Link.System.{System, update_link}
use libraspike_art.Link.Request.{request}
use libraspike_art.Device.Common.{
  claim_device, configured, get_device_common, on_entry, port_to_raspike,
}

-- A pointer that comes back is to an entry of this type.
abbrev Claimed : ℕ → Option ℕ → System → Type 0
Claimed kind none s = Unit
Claimed kind (some i) s = (s.link.ports i).device.device_type ≡ kind

abbrev Any : {A : Type 0} → A → System → Type 0
Any a s = Unit

configure-Claimed :
    (kind port i : ℕ) (s : System)
    → Ends (Claimed kind) (
        (do
          result ← request port (u8 (make_cmd kind 0)) (null (pos 0))
          if not (result ==ℤ pos 1)
              then pure none
              else (do update_link (configured i kind port); pure (some i)))
          s)
configure-Claimed kind port i s =
    bind-Ends Any (Claimed kind) (request port (u8 (make_cmd kind 0)) (null (pos 0)) s) _
      (Ends-trivial Any _ (λ a u. tt))
      (λ result u _. elim (Bool-cases (not (result ==ℤ pos 1))) [
        | inl e ↦ rw e tt
        | inr e ↦ rw (e, ==-refl i) refl
      ])

claim_device-Claimed :
    (kind port i : ℕ) (s : System) → Ends (Claimed kind) (claim_device kind port i s)
unfolding claim_device
claim_device-Claimed kind port i s =
    elim (Bool-cases ((s.link.ports i).device.device_type == kind)) [
      | inl e ↦ rw e ((==_iff (s.link.ports i).device.device_type kind).0 e)
      | inr e ↦ elim (Bool-cases (not ((s.link.ports i).device.device_type == 0))) [
        | inl e' ↦ rw (e, e') tt
        | inr e' ↦ rw (e, e') (configure-Claimed kind port i s)
      ]
    ]

on_entry-Claimed :
    (kind port : ℕ) (o : Option ℕ) (s : System)
    → Ends (Claimed kind) (on_entry o (claim_device kind port) s)
on_entry-Claimed kind port none s = tt
on_entry-Claimed kind port (some i) s = claim_device-Claimed kind port i s

common-Ends : (kind port : ℕ) (s : System) → Ends (Claimed kind) (get_device_common kind port s)
unfolding get_device_common
common-Ends kind port s =
    elim (Bool-cases
      (not (is_valid_port (port_to_raspike port)) || port_to_raspike port == port_none)) [
        | inl e ↦ rw e tt
        | inr e ↦
            rw e
              (on_entry-Claimed kind (port_to_raspike port) (get_device (port_to_raspike port)) s)
      ]

-- A device pointer that `GET_DEVICE_COMMON` returns is to an entry whose device is of the type that
-- was asked for.
pub get_device_common-Claimed :
    (kind port i : ℕ) (s s' : System)
    → get_device_common kind port s ≡ done (some i) s'
    → (s'.link.ports i).device.device_type ≡ kind
get_device_common-Claimed kind port i s s' e =
    Ends-done (Claimed kind) (get_device_common kind port s) (common-Ends kind port s) (some i) s' e
