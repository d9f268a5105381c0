-- ===== src/Gpt/Category.antt =====
-- `partition_category`.
use rusty_cortex.Base.{
  ℕ, ◌-◌, List, [], ◌∷◌, Option, none, some, leb, if◌then◌else◌, length, take, drop, String, codes,
  equal, one_of, ◌&&◌,
}

-- `str::strip_suffix`.
unfoldable pub strip_suffix : List ℕ → List ℕ → Option (List ℕ)
strip_suffix s suffix =
    let n = length s - length suffix in
    if leb (length suffix) (length s) && equal (drop n s) suffix then some (take n s) else none

abbrev pub or_else : Option (List ℕ) → Option (List ℕ) → Option (List ℕ)
or_else (some s) o = some s
or_else none o = o

abbrev pub unwrap_or : Option (List ℕ) → List ℕ → List ℕ
unwrap_or (some s) d = s
unwrap_or none d = d

abbrev boot_names : List String
boot_names =
    "boot" ∷ "recovery" ∷ "dtbo" ∷ "vbmeta" ∷ "init_boot" ∷ "vbmeta_system" ∷ "vbmeta_vendor" ∷ []

abbrev system_names : List String
system_names =
    "system" ∷ "vendor" ∷ "odm" ∷ "product" ∷ "system_ext" ∷ "vendor_dlkm" ∷ "odm_dlkm"
    ∷ "system_dlkm" ∷ []

abbrev firmware_names : List String
firmware_names =
    "xbl" ∷ "abl" ∷ "tz" ∷ "hyp" ∷ "rpm" ∷ "devcfg" ∷ "modem" ∷ "bluetooth" ∷ "dsp" ∷ "aop"
    ∷ "qupfw" ∷ "shrm" ∷ "uefi" ∷ "xbl_config" ∷ "multiimgoem" ∷ "imagefv" ∷ "featenabler" ∷ []

abbrev metadata_names : List String
metadata_names =
    "misc" ∷ "metadata" ∷ "persist" ∷ "frp" ∷ "fsc" ∷ "fsg" ∷ "devinfo" ∷ "config" ∷ "logfs"
    ∷ "limits" ∷ "spunvm" ∷ "last_parti" ∷ "cdt" ∷ "ddr" ∷ []

-- The match on the base name.
unfoldable pub base_category : List ℕ → String
base_category base =
    if one_of base boot_names
    then "boot"
    else if one_of base system_names
    then "system"
    else if one_of base firmware_names
    then "firmware"
    else if equal base (codes "userdata")
    then "userdata"
    else if one_of base metadata_names
    then "metadata"
    else "unknown"

unfoldable pub partition_category : List ℕ → String
partition_category name =
    base_category
      (unwrap_or (or_else (strip_suffix name (codes "_a")) (strip_suffix name (codes "_b"))) name)
