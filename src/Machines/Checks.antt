-- ===== src/Machines/Checks.antt =====
-- What the operations check before they change a machine (internal/vm/vm.go:
-- validateIdentityAndResources, validateDiskSpec, validateOptionalISO, validateCloudInit,
-- validateIPMIConfig, normalizeNICSpec, normalizeStorageName, resolveISOStorageFile).
use app_runner.Prelude.{
  ℕ, ◌/◌, ◌%◌, ◌^◌, Bool, false, ◌&&◌, ◌||◌, not, Option, none, some, List, [], ◌∷◌, if◌then◌else◌,
  ltb, ◌==◌, Text, same, codes, equal_fold, exists, length, take, trim_space, is_some,
}
use app_runner.Net.{Addr, ipv4, ipv6}
use app_runner.Validate.{dns_label, interface_name}
use app_runner.Vm.{CloudInit, IpmiConfig, NetworkMode, nat_mode, bridge_mode, is_blank}
use app_runner.Machines.{
  Platform, FieldError, no_name, long_name, bad_label, long_description, bad_cpus, bad_memory,
  bad_size, bad_image, bad_iso, bad_user_data, bad_mode, bad_bridge, bad_mac, bad_address,
  bad_username, bad_password,
}

pub record DiskSpec : Type 0 where
  pub size_gib : ℕ
  pub source_image : Text

-- `mode` is `none` for a value that is neither of the two modes.
pub record NicSpec : Type 0 where
  pub mode : Option NetworkMode
  pub bridge_name : Text
  pub mac_address : Text

-- What a normalized specification asks for; a blank address is to be generated.
pub record NicRequest : Type 0 where
  pub mode : NetworkMode
  pub bridge_name : Text
  pub mac_address : Text

pub data Normalized : Type 0 where
  normalized : NicRequest → Normalized
  rejected : FieldError → Normalized

unfoldable pub validate_identity_and_resources : Text → Text → ℕ → ℕ → Option FieldError
validate_identity_and_resources name description cpus memory_mib =
    if is_blank name
    then some no_name
    else if ltb 80 (length name)
    then some long_name
    else if is_some (dns_label name)
    then some bad_label
    else if ltb 4096 (length description)
    then some long_description
    else if ltb cpus 1 || ltb 64 cpus
    then some bad_cpus
    else if ltb memory_mib 256 || ltb 1048576 memory_mib
    then some bad_memory
    else none

unfoldable pub validate_cloud_init : CloudInit → Option FieldError
validate_cloud_init c = if ltb (2 ^ 20) (length c.user_data) then some bad_user_data else none

-- `address.Is4() && !address.IsUnspecified() && !address.IsMulticast()`: 224.0.0.0/4 is multicast.
unfoldable pub is_usable : Option Addr → Bool
is_usable none = false
is_usable (some (ipv4 a)) = not (a == 0) && not (a / 2 ^ 28 == 14)
is_usable (some (ipv6 a)) = false

-- `strings.HasPrefix`
abbrev has_prefix : Text → Text → Bool
has_prefix prefix t = same (take (length prefix) t) prefix

abbrev pub image_extensions : List Text
image_extensions = codes ".img" ∷ codes ".qcow2" ∷ []

module _ {Host : Type 0} (p : Platform Host) where
  pub normalize_storage_name : Text → Text
  normalize_storage_name name =
      if is_blank (trim_space name) then [] else p.clean_path (trim_space name)

  -- Whether a cleaned path stays below the directory that it is relative to.
  pub is_inside : Text → Bool
  is_inside t =
      not (same t (codes ".") || p.is_abs t || same t (codes "..") || has_prefix (codes "../") t)

  -- The path that a name in ISO storage stands for; what symbolic links make of it is the file
  -- system's answer.
  pub resolve_iso_storage_file : Text → List Text → Host → Option Text
  unfolding is_inside
  resolve_iso_storage_file name extensions h =
      let clean = p.clean_path (trim_space name) in
      if not (is_inside clean)
      then none
      else if not (exists (λ e. equal_fold (p.extension clean) e) extensions)
      then none
      else p.resolve_inside clean h

  pub validate_disk_spec : DiskSpec → Host → Option FieldError
  unfolding resolve_iso_storage_file
  validate_disk_spec spec h =
      if ltb spec.size_gib 1 || ltb 2048 spec.size_gib
      then some bad_size
      else if not (is_blank spec.source_image)
          && not (is_some (resolve_iso_storage_file spec.source_image image_extensions h))
      then some bad_image
      else none

  pub validate_optional_iso : Text → Host → Option FieldError
  unfolding resolve_iso_storage_file
  validate_optional_iso name h =
      if is_blank name
      then none
      else if is_some (resolve_iso_storage_file name (codes ".iso" ∷ []) h)
      then none
      else some bad_iso

  pub validate_ipmi_config : IpmiConfig → Option FieldError
  unfolding is_usable
  validate_ipmi_config c =
      if is_some (interface_name c.bridge_name)
      then some bad_bridge
      else if not (is_usable (p.parse_addr c.address))
      then some bad_address
      else if is_blank c.username || ltb 16 (length c.username)
      then some bad_username
      else if is_blank c.password || ltb 20 (length c.password)
      then some bad_password
      else none

  -- A unicast address of six bytes.
  is_unicast : List ℕ → Bool
  is_unicast [] = false
  is_unicast (b ∷ bs) = length (b ∷ bs) == 6 && b % 2 == 0

  with_mac : NetworkMode → Text → Option (List ℕ) → Normalized
  unfolding is_unicast
  with_mac mode bridge none = rejected bad_mac
  with_mac mode bridge (some a) =
      if is_unicast a
      then normalized (record { mode = mode; bridge_name = bridge; mac_address = p.print_mac a })
      else rejected bad_mac

  with_bridge : NetworkMode → Text → Text → Normalized
  unfolding with_mac
  with_bridge mode bridge mac =
      if is_blank mac
      then normalized (record { mode = mode; bridge_name = bridge; mac_address = [] })
      else with_mac mode bridge (p.parse_mac mac)

  normalize_mode : Option NetworkMode → Text → Text → Normalized
  unfolding with_bridge
  normalize_mode none bridge mac = rejected bad_mode
  normalize_mode (some nat_mode) bridge mac = with_bridge nat_mode [] mac
  normalize_mode (some bridge_mode) bridge mac =
      if is_some (interface_name bridge)
      then rejected bad_bridge
      else with_bridge bridge_mode bridge mac

  unfoldable pub normalize_nic_spec : NicSpec → Normalized
  unfolding normalize_mode
  normalize_nic_spec spec =
      normalize_mode spec.mode (trim_space spec.bridge_name) (trim_space spec.mac_address)
