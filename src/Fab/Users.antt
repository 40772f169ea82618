-- ===== src/Fab/Users.antt =====
-- The checks of users and passwords in `Validate` of api/fabricator/v1beta1/fabricator_types.go.
use fabricator.Common.{
  String, str_eq, Bool, true, false, ◌&&◌, ◌||◌, List, [], ◌∷◌, ◌++◌, Result, ok, err, ◌>>=◌, ◌>>◌,
  require, refuse, if◌then◌else◌,
}
use fabricator.Strings.{contains_string, has_prefix}
use fabricator.Fab.Types.{Table, SwitchUser, ControlUser}
pub mod Laws

pub data UserError : Type 0 where
  no_control_password no_authorized_keys control_password_kind : UserError
  bad_role no_password password_kind : String → UserError
  no_admin : UserError
  known_user : String → UserError

abbrev pub is_empty {ℓ} : {A : Type ℓ} → List A → Bool
is_empty [] = true
is_empty (_ ∷ _) = false

unfoldable pub check_control_user : Bool → ControlUser → Result UserError (Unit {0})
check_control_user no_pass_auth user = do
  refuse (str_eq user.password_hash "") no_control_password
  refuse (no_pass_auth && is_empty user.authorized_keys) no_authorized_keys
  require (has_prefix user.password_hash "$5$") control_password_kind

-- One switch user, after which the flag says whether the admin has been seen.
unfoldable pub check_switch_user : String → SwitchUser → Bool → Result UserError Bool
check_switch_user name user admin = do
  require (contains_string ("admin" ∷ "operator" ∷ []) user.role) (bad_role name)
  refuse (str_eq user.password_hash "") (no_password name)
  require (has_prefix user.password_hash "$5$") (password_kind name)
  ok (if str_eq name "admin" && str_eq user.role "admin" then true else admin)

unfoldable pub scan_switch_users : Table SwitchUser → Bool → Result UserError Bool
scan_switch_users [] admin = ok admin
scan_switch_users ((name, user) ∷ users) admin =
    check_switch_user name user admin >>= scan_switch_users users

unfoldable pub check_switch_users : Table SwitchUser → Result UserError (Unit {0})
check_switch_users users = do admin ← scan_switch_users users false; require admin no_admin

-- `knownSwitchUsers`; the last two are `fmeta.AgentUser` and `fmeta.AlloyUser`.
unfoldable pub known_switch_users : String → String → List String
known_switch_users agent alloy =
    "root" ∷ "daemon" ∷ "bin" ∷ "sys" ∷ "adm" ∷ "tty" ∷ "disk" ∷ "lp" ∷ "mail" ∷ "news" ∷ "uucp"
    ∷ "man" ∷ "proxy" ∷ "kmem" ∷ "dialout" ∷ "fax" ∷ "voice" ∷ "cdrom" ∷ "floppy" ∷ "tape" ∷ "sudo"
    ∷ "audio" ∷ "dip" ∷ "www-data" ∷ "backup" ∷ "operator" ∷ "list" ∷ "irc" ∷ "src" ∷ "gnats"
    ∷ "shadow" ∷ "utmp" ∷ "video" ∷ "sasl" ∷ "plugdev" ∷ "staff" ∷ "games" ∷ "users" ∷ "nogroup"
    ∷ "systemd-journal" ∷ "systemd-timesync" ∷ "systemd-network" ∷ "systemd-resolve" ∷ "docker"
    ∷ "redis" ∷ "netadmin" ∷ "secadmin" ∷ "messagebus" ∷ "input" ∷ "kvm" ∷ "render" ∷ "crontab"
    ∷ "i2c" ∷ "ssh" ∷ "systemd-coredump" ∷ "ntp" ∷ "frr" ∷ agent ∷ alloy ∷ []

-- `CheckForKnownSwitchUsers`
unfoldable pub check_known_users : List String → Table SwitchUser → Result UserError (Unit {0})
check_known_users known [] = ok tt
check_known_users known ((name, user) ∷ users) = do
  refuse (contains_string known name) (known_user name)
  check_known_users known users
