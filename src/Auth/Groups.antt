-- ===== src/Auth/Groups.antt =====
-- config/auth.go, `groupMap`: the groups are written into the users, nested groups included.
use olareg.Shared.{
  ℕ, zero, suc, String, List, [], ◌∷◌, ◌++◌, Option, none, some, string_comparable, if◌then◌else◌,
}
use olareg.Shared.GoMap
use olareg.Shared.GoMap.{GoMap}
use olareg.Shared.Members.{contains}
use olareg.Auth.{AuthUser, AuthGroup, AuthConf}

-- `groups[cur] = true` for each name
unfoldable pub add_groups : List String → List String → List String
add_groups [] groups = groups
add_groups (cur ∷ rest) groups =
    add_groups rest (if contains groups cur then groups else cur ∷ groups)

-- The entry of a member that is a user: a nil user becomes an empty one.
abbrev pub user_of : Option AuthUser → AuthUser
user_of (some u) = u
user_of none = record { cred = ""; groups = [] }

unfoldable pub join_groups : List String → Option AuthUser → AuthUser
join_groups names u = record (user_of u) { groups = add_groups names (user_of u).groups }

abbrev pub Users : Type 0
Users = GoMap String (Option AuthUser)

-- The loop over the members of the group that stands last in `names`; `nested` is the call for a
-- member that is no user.
unfoldable pub member_loop :
    (String → List String → Users → Users) → List String → List String → Users → Users
member_loop nested names [] users = users
member_loop nested names (member ∷ rest) users =
    member_loop nested names rest (elim (GoMap.lookup member users) [
      | some u ↦ GoMap.put member (some (join_groups names u)) users
      | none ↦ nested member names users
    ])

-- `groupMap` with fuel for the depth of the groups.
unfoldable pub group_map :
    ℕ → GoMap String (Option AuthGroup) → String → List String → Users → Users
group_map zero groups name parents users = users
group_map (suc fuel) groups name parents users =
    if contains parents name then users else (elim (GoMap.lookup name groups) [
      | some (some g) ↦
          member_loop (λ member names us. group_map fuel groups member names us)
            (parents ++ name ∷ []) g.members users
      | some none ↦ users
      | none ↦ users
    ])

-- `for group := range afc.Groups { afc.groupMap(group) }`, with the names in some order
unfoldable pub map_groups : ℕ → List String → AuthConf → AuthConf
map_groups fuel [] ac = ac
map_groups fuel (name ∷ names) ac =
    map_groups fuel names (record ac { users = group_map fuel ac.groups name [] ac.users })
