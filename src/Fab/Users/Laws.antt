-- ===== src/Fab/Users/Laws.antt =====
-- What the accepted switch users satisfy.
use fabricator.Common.{
  ◌≡◌, String, str_eq, Bool, true, false, ◌&&◌, List, [], ◌∷◌, ok, arith, All, bind-eq-ok,
  if◌then◌else◌,
}
use fabricator.Strings.{contains_string, has_prefix}
use fabricator.Fab.Types.{Table, SwitchUser}
use fabricator.Fab.Users.{
  check_switch_user, scan_switch_users, check_switch_users, check_known_users,
}

-- A user that is the admin.
abbrev pub is_admin : String → SwitchUser → Bool
is_admin name user = str_eq name "admin" && str_eq user.role "admin"

abbrev pub has_admin : Table SwitchUser → Bool
has_admin [] = false
has_admin ((name, user) ∷ users) = if is_admin name user then true else has_admin users

-- A role that is known, and a hash of the kind that is required.
abbrev pub IsUser : String × SwitchUser → Type 0
IsUser (name, user) =
    (contains_string ("admin" ∷ "operator" ∷ []) user.role ≡ true)
    × (has_prefix user.password_hash "$5$" ≡ true)

check_switch_user-IsUser :
    (name : String) (user : SwitchUser) (a b : Bool)
    → check_switch_user name user a ≡ ok b
    → IsUser (name, user) × (b ≡ (if is_admin name user then true else a))
unfolding check_switch_user
check_switch_user-IsUser name user a b h = ground arith

scan_switch_users-IsUser :
    (users : Table SwitchUser) (a b : Bool)
    → scan_switch_users users a ≡ ok b
    → All IsUser users × (b ≡ (if a then true else has_admin users))
unfolding scan_switch_users
scan_switch_users-IsUser [] a b h = ground arith
scan_switch_users-IsUser ((name, user) ∷ users) a b h =
    let (c, e, k) = bind-eq-ok (check_switch_user name user a) _ h in
    let (u, f) = check_switch_user-IsUser name user a c e in
    let (us, g) = scan_switch_users-IsUser users c b k in ((u, us), ground arith)

-- The users that are accepted have known roles and hashes of the required kind, and one of them is
-- the admin.
pub check_switch_users-IsUser :
    (users : Table SwitchUser)
    → check_switch_users users ≡ ok tt
    → All IsUser users × (has_admin users ≡ true)
unfolding check_switch_users
check_switch_users-IsUser users h =
    let (b, e, k) = bind-eq-ok (scan_switch_users users false) _ h in
    let (us, g) = scan_switch_users-IsUser users false b e in (us, ground arith)

-- The users that are accepted are none of the known ones.
pub check_known_users-All :
    (known : List String) (users : Table SwitchUser)
    → check_known_users known users ≡ ok tt
    → All (λ (u : String × SwitchUser). contains_string known u.0 ≡ false) users
unfolding check_known_users
check_known_users-All known [] h = tt
check_known_users-All known ((name, user) ∷ users) h =
    (ground arith, check_known_users-All known users (ground arith))
