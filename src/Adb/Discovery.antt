-- ===== src/Adb/Discovery.antt =====
-- `find_adb_from_config` and `find_adb_usb_device` over the descriptors that the USB library reports.
use rusty_cortex.Base.{
  ℕ, Bool, false, List, [], ◌∷◌, Option, none, some, ◌==◌, ◌&&◌, if◌then◌else◌, equal,
}
use rusty_cortex.Base.Words.{Bytes}
use rusty_cortex.Failure.{Result, ok, err, usb, no_device, text}

pub record Endpoint : Type 0 where
  pub is_bulk : Bool
  pub is_in : Bool
  pub address : ℕ

pub record AltSetting : Type 0 where
  pub class : ℕ
  pub subclass : ℕ
  pub protocol_code : ℕ
  pub interface_number : ℕ
  pub endpoints : List Endpoint

-- `config` is `none` where no configuration is active; `opens` says whether `open` succeeds.
pub record UsbDevice : Type 0 where
  pub serial_number : Option Bytes
  pub opens : Bool
  pub config : Option (List AltSetting)

-- The interface number, the IN and the OUT endpoint.
pub record AdbInterface : Type 0 where
  pub intf_num : ℕ
  pub ep_in : ℕ
  pub ep_out : ℕ

-- The loop over the endpoints: the last bulk endpoint of each direction wins.
unfoldable pub bulk_endpoints : List Endpoint → Option ℕ → Option ℕ → Option ℕ × Option ℕ
bulk_endpoints [] ep_in ep_out = (ep_in, ep_out)
bulk_endpoints (e ∷ es) ep_in ep_out =
    bulk_endpoints es (if e.is_bulk && e.is_in then some e.address else ep_in)
      (if e.is_bulk then (if e.is_in then ep_out else some e.address) else ep_out)

abbrev both_found : ℕ → Option ℕ × Option ℕ → Option AdbInterface → Option AdbInterface
both_found number (some i, some o) later =
    some (record { intf_num = number; ep_in = i; ep_out = o })
both_found number (some i, none) later = later
both_found number (none, o) later = later

unfoldable pub find_adb_from_config : List AltSetting → Option AdbInterface
unfolding bulk_endpoints
find_adb_from_config [] = none
find_adb_from_config (alt ∷ alts) =
    let later = find_adb_from_config alts in
    if alt.class == 0xFF && alt.subclass == 0x42 && alt.protocol_code == 0x01
    then both_found alt.interface_number (bulk_endpoints alt.endpoints none none) later
    else later

abbrev config_of : Option (List AltSetting) → Option AdbInterface
config_of none = none
config_of (some alts) = find_adb_from_config alts

abbrev interface_or_error : Bytes → Option AdbInterface → Result AdbInterface
interface_or_error serial (some i) = ok i
interface_or_error serial none = err (
    usb "Device '{target_serial}' found but has no ADB interface (class=0xFF/0x42/0x01)"
      (text serial ∷ []))

abbrev has_serial : Bytes → Option Bytes → Bool
has_serial serial none = false
has_serial serial (some s) = equal s serial

unfoldable pub find_adb_usb_device : Bytes → List UsbDevice → Result AdbInterface
unfolding find_adb_from_config
find_adb_usb_device serial [] = err no_device
find_adb_usb_device serial (d ∷ ds) =
    let later = find_adb_usb_device serial ds in
    if has_serial serial d.serial_number
    then (if d.opens
        then interface_or_error serial (config_of d.config)
        else err (usb "Failed to open device: {e}" []))
    else later
