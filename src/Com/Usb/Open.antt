-- ===== src/Com/Usb/Open.antt =====
-- `raspike_open_usb_communication`, src/raspike_com.c, lines 191 to 235.
use libraspike_art.Base.{
  List, [], ◌∷◌, Option, none, some, ℤ, is_neg, Bool, true, not, if◌then◌else◌,
}
use libraspike_art.Com.Fd.{default_io_timeout_ms}
use libraspike_art.Com.Usb.{Descriptor, com_type_usb}

-- How the system calls end: `open`, whether `tcgetattr` and `tcsetattr` succeed, and whether
-- `calloc` finds memory.
pub record Calls : Type 0 where
  pub opened : ℤ
  pub got_attributes : Bool
  pub set_attributes : Bool
  pub allocated : Bool

abbrev descriptor_for : ℤ → Descriptor
descriptor_for fd = record {
  kind = com_type_usb;
  desc = fd;
  io_timeout_ms = default_io_timeout_ms;
  has_send = true;
  has_receive = true;
  has_close = true;
  has_flush = true;
}

-- The result is the descriptor and the list of the file descriptors that were closed again.
-- The device is given by whether its name is not null.
unfoldable pub open_usb_communication : Bool → Calls → Option Descriptor × List ℤ
open_usb_communication named calls =
    if not named
    then (none, [])
    else if is_neg calls.opened
    then (none, [])
    else if not calls.got_attributes
    then (none, calls.opened ∷ [])
    else if not calls.set_attributes
    then (none, calls.opened ∷ [])
    else if not calls.allocated
    then (none, calls.opened ∷ [])
    else (some (descriptor_for calls.opened), [])
