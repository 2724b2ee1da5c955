-- ===== src/Device/Common/Delayed.antt =====
-- `DELAYED_SENSOR_COMMON` of src/raspike_internal.h, which reads the color sensor.
use libraspike_art.Base.{
  ℕ, ◌≡◌, refl, ap, ◌⊎◌, inl, inr, List, some, true, not, Bool-cases, if◌then◌else◌, ℤ, pos, negsuc,
  ==_iff, ◌==ℤ◌, done, Ends, bind-Ends, Ends-done, pure,
}
use libraspike_art.Link.Ports.{is_valid_port}
use libraspike_art.Link.System.{System}
use libraspike_art.Link.Api.{port_com_change_if_needed}
use libraspike_art.Link.Api.Wait.{Shows, Reached, change-Ends}
use libraspike_art.Device.Common.{delayed_sensor, device_at, zero_value, read_port, read_or_zero}

-- The bytes are those of the port in a status that says that the port sends what was asked for.
pub record Shown (port cmd size : ℕ) (p : List ℕ) (s : System) : Type 0 where
  pub shows : Shows port cmd s
  pub read : p ≡ read_port port 0 size shows.status

is_zero : (ret : ℤ) → (ret ==ℤ pos 0) ≡ true → ret ≡ pos 0
is_zero (pos n) e = ap pos ((==_iff n 0).0 e)
is_zero (negsuc n) e = cc

module _ (port cmd size : ℕ) where
  abbrev Read : List ℕ → System → Type 0
  Read p s = (p ≡ zero_value size) ⊎ Shown port cmd size p s

  Read-Shows : (s : System) → Shows port cmd s → Read (read_or_zero s.link.status port 0 size) s
  Read-Shows s h = inr (record { shows = h; read = ap (λ o. read_or_zero o port 0 size) h.saved })

  after_change :
      (ret : ℤ) (s : System)
      → Reached port cmd ret s
      → Ends Read (
          (if not (ret ==ℤ pos 0)
              then pure (zero_value size)
              else (λ (t : System). done (read_or_zero t.link.status port 0 size) t))
            s)
  after_change ret s h = elim (Bool-cases (ret ==ℤ pos 0)) [
    | inl e ↦ rw e (Read-Shows s (h (is_zero ret e)))
    | inr e ↦ rw e (inl refl)
  ]

delayed-Ends :
    (i cmd size : ℕ) (s : System)
    → Ends (Read (device_at s i).port_id cmd size) (delayed_sensor (some i) cmd size s)
unfolding delayed_sensor
delayed-Ends i cmd size s = elim (Bool-cases (not (is_valid_port (device_at s i).port_id))) [
  | inl e ↦ rw e (inl refl)
  | inr e ↦ rw e (
      bind-Ends (Reached (device_at s i).port_id cmd) (Read (device_at s i).port_id cmd size)
        (port_com_change_if_needed (device_at s i).port_id cmd s) _
        (change-Ends (device_at s i).port_id cmd s)
        (λ ret t h. after_change (device_at s i).port_id cmd size ret t h))
]

-- A value that is read from a sensor that must first be told what to send is either zero, as after
-- every error, or it is taken from the port's bytes of a status which says that the port sends what
-- was asked for, whatever the other threads did while the call waited.
pub delayed_sensor-Shown :
    (i cmd size : ℕ) (s s' : System) (p : List ℕ)
    → delayed_sensor (some i) cmd size s ≡ done p s'
    → (p ≡ zero_value size) ⊎ Shown (device_at s i).port_id cmd size p s'
delayed_sensor-Shown i cmd size s s' p e =
    Ends-done (Read (device_at s i).port_id cmd size) (delayed_sensor (some i) cmd size s)
      (delayed-Ends i cmd size s) p s' e
