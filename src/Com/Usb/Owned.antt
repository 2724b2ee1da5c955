-- ===== src/Com/Usb/Owned.antt =====
-- The file descriptor in `raspike_open_usb_communication` of src/raspike_com.c.
use libraspike_art.Base.{ℕ, [], ◌∷◌, none, some, pos, Bool, true, false, inl, inr, ◌⊎◌, ◌≡◌, refl}
use libraspike_art.Com.Usb.{Descriptor, com_type_usb}
use libraspike_art.Com.Usb.Open.{Calls, open_usb_communication}

-- The descriptor that has the file descriptor `fd` and all its functions.
pub record Owns (fd : ℕ) (d : Descriptor) : Type 0 where
  pub is_usb : d.kind ≡ com_type_usb
  pub owned : d.desc ≡ pos fd
  pub sends : d.has_send ≡ true
  pub receives : d.has_receive ≡ true
  pub closes : d.has_close ≡ true
  pub flushes : d.has_flush ≡ true

-- A file descriptor that `open` gave is either kept in the USB descriptor that is returned,
-- which has the functions to send, to receive, to flush and to close, and nothing is closed; or it is
-- closed once, nothing else is, and NULL is returned.
pub open_usb_communication-owned :
    (fd : ℕ) (got set allocated : Bool)
    → let calls : Calls = record {
      opened = pos fd;
      got_attributes = got;
      set_attributes = set;
      allocated = allocated;
    } in
      ((d : Descriptor) × ((open_usb_communication true calls ≡ (some d, [])) × Owns fd d))
      ⊎ (open_usb_communication true calls ≡ (none, pos fd ∷ []))
unfolding open_usb_communication
open_usb_communication-owned fd false set allocated = inr refl
open_usb_communication-owned fd true false allocated = inr refl
open_usb_communication-owned fd true true false = inr refl
open_usb_communication-owned fd true true true = inl (
  _,
  (
    refl,
    record {
      is_usb = refl;
      owned = refl;
      sends = refl;
      receives = refl;
      closes = refl;
      flushes = refl;
    },
  ),
)
