-- ===== src/Rbac.antt =====
-- pkg/rbac/rbac.go: privilege masks, 4 bits (read, exec, manage, priv) for each of eight domains.
pub mod Cover
use sienne.Base.{ℕ, ◌*◌, ◌^◌, Bool, true, false, not, ◌&&◌, List, [], ◌∷◌, nat_eq, if◌then◌else◌}
use sienne.Base.Bits.{bit_and}

abbrev pub action_read : ℕ
action_read = 0x8

abbrev pub action_exec : ℕ
action_exec = 0x4

abbrev pub action_manage : ℕ
action_manage = 0x2

abbrev pub action_priv : ℕ
action_priv = 0x1

-- `action << shift` as a uint32.
abbrev pub permission : ℕ → ℕ → ℕ
permission action shift = action * 2 ^ shift

abbrev pub mask_end_user : ℕ
mask_end_user = 0x00000000

abbrev pub mask_auditor : ℕ
mask_auditor = 0x88888888

abbrev pub mask_support : ℕ
mask_support = 0xCC8C888C

abbrev pub mask_oauth_admin : ℕ
mask_oauth_admin = 0x8EEC8888

abbrev pub mask_security_admin : ℕ
mask_security_admin = 0xEEEEEAEE

abbrev pub mask_super_admin : ℕ
mask_super_admin = 0xFFFFFFFF

unfoldable pub has_all : ℕ → List ℕ → Bool
has_all mask [] = true
has_all mask (permission ∷ rest) =
    if nat_eq permission 0
    then has_all mask rest
    else if nat_eq (bit_and mask permission) permission
    then has_all mask rest
    else false

unfoldable pub has_any : ℕ → List ℕ → Bool
has_any mask [] = false
has_any mask (permission ∷ rest) =
    if not (nat_eq permission 0) && nat_eq (bit_and mask permission) permission
    then true
    else has_any mask rest
