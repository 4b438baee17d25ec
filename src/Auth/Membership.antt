-- ===== src/Auth/Membership.antt =====
-- The groups that `groupMap` writes into the users: how deep it goes, and that a user is in no group
-- that does not list it (config/auth.go).
use olareg.Shared.{
  ℕ, zero, suc, ◌<◌, String, List, [], ◌∷◌, ◌++◌, Option, none, some, true, ◌||◌, ◌≡◌, refl, ap,
  subst, arith, ◌==◌, ==_iff, ==_self, string_comparable, Bool-cases, Option-cases, inl, inr,
}
use olareg.Shared.GoMap
use olareg.Shared.GoMap.{GoMap, keys, lookup-put}
use olareg.Shared.Slices.{any}
use olareg.Shared.Members.{contains, unseen, unseen-lt, contains-append}
use olareg.Auth.{AuthUser, AuthGroup, AuthConf}
use olareg.Auth.Groups.{add_groups, user_of, join_groups, Users, member_loop, group_map, map_groups}

contains-keys :
    {V : Type 0} (k : String) (m : GoMap String V) (v : V)
    → GoMap.lookup k m ≡ some v
    → contains (keys m) k ≡ true
unfolding any GoMap.lookup
contains-keys k [] v h = ground arith
contains-keys k ((j, w) ∷ m) v h = ground (arith, contains-keys k m v)

member_loop-congr :
    (f g : String → List String → Users → Users) (names members : List String) (users : Users)
    → ((m : String) (us : Users) → f m names us ≡ g m names us)
    → member_loop f names members users ≡ member_loop g names members users
unfolding member_loop
member_loop-congr f g names [] users h = refl
member_loop-congr f g names (m ∷ rest) users h = elim (Option-cases (GoMap.lookup m users)) [
  | inl q ↦
      rw (q, member_loop) (rw (h m users) (member_loop-congr f g names rest (g m names users) h))
  | inr (u, q) ↦
      rw (q, member_loop)
        (member_loop-congr f g names rest (GoMap.put m (some (join_groups names u)) users) h)
]

module _ (groups : GoMap String (Option AuthGroup)) where
  -- With fuel for the groups that are not among the parents, more fuel changes nothing: the groups
  -- are followed to the end.
  pub group_map-enough :
      (fuel : ℕ) (name : String) (parents : List String) (users : Users)
      → unseen (keys groups) parents < fuel
      → group_map (suc fuel) groups name parents users ≡ group_map fuel groups name parents users
  unfolding group_map
  group_map-enough zero name parents users h = ground arith
  group_map-enough (suc fuel) name parents users h = elim (Bool-cases (contains parents name)) [
    | inl q ↦ rw (q, group_map) refl
    | inr q ↦ elim (Option-cases (GoMap.lookup name groups)) [
      | inl p ↦ rw (q, p, group_map) refl
      | inr (none, p) ↦ rw (q, p, group_map) refl
      | inr (some g, p) ↦
          let names = parents ++ name ∷ [] in
          let fewer =
            unseen-lt (keys groups) parents names name
              (λ j r. ground (arith, contains-append parents name j))
              (contains-keys name groups (some g) p) q
              (ground (arith, contains-append parents name name, ==_self name)) in
          rw (q, p, group_map)
            (member_loop-congr _ _ names g.members users
              (λ m us. group_map-enough fuel m names us (omega (arith, fewer))))
    ]
  ]

contains-add_groups :
    (names gs : List String) (g : String)
    → contains (add_groups names gs) g ≡ (contains names g || contains gs g)
unfolding add_groups any
contains-add_groups [] gs g = refl
contains-add_groups (cur ∷ rest) gs g = elim (Bool-cases (contains gs cur)) [
  | inl q ↦
      rw (q, add_groups)
        (ground (
          arith,
          contains-add_groups rest gs g,
          λ (s : cur ≡ g). ap (λ x. contains gs x) s,
          ==_iff cur g,
        ))
  | inr q ↦ rw (q, add_groups) (ground (arith, contains-add_groups rest (cur ∷ gs) g))
]

module _ (groups : GoMap String (Option AuthGroup)) where
  -- A group lists the user, or lists a group that the user is in.
  pub data InGroup : String → String → Type 0 where
    direct :
        (g u : String) (group : AuthGroup)
        → GoMap.lookup g groups ≡ some (some group)
        → contains group.members u ≡ true
        → InGroup g u
    nested :
        (g m u : String) (group : AuthGroup)
        → GoMap.lookup g groups ≡ some (some group)
        → contains group.members m ≡ true
        → InGroup m u
        → InGroup g u

  -- Users are only in groups that list them.
  abbrev pub IsListed : Users → Type 0
  IsListed users =
      (u : String) (au : AuthUser) (g : String)
      → GoMap.lookup u users ≡ some (some au)
      → contains au.groups g ≡ true
      → InGroup g u

  in_old :
      (m : String) (o : Option AuthUser) (users : Users) (g : String)
      → GoMap.lookup m users ≡ some o
      → IsListed users
      → contains (user_of o).groups g ≡ true
      → InGroup g m
  unfolding any
  in_old m none users g q h c = ground arith
  in_old m (some au) users g q h c = h m au g q c

  put-IsListed :
      (m : String) (o : Option AuthUser) (names : List String) (users : Users)
      → GoMap.lookup m users ≡ some o
      → ((g : String) → contains names g ≡ true → InGroup g m)
      → IsListed users
      → IsListed (GoMap.put m (some (join_groups names o)) users)
  unfolding join_groups
  put-IsListed m o names users q listed h u au g p c = elim (Bool-cases (m == u)) [
    | inr s ↦ h u au g (ground (arith, lookup-put m u (some (join_groups names o)) users)) c
    | inl s ↦
        let joined : join_groups names o ≡ au =
          ground (arith, lookup-put m u (some (join_groups names o)) users) in
        let both : (contains names g || contains (user_of o).groups g) ≡ true =
          ground (arith, joined, contains-add_groups names (user_of o).groups g) in
        subst (λ x. InGroup g x) ((==_iff m u).0 s)
          (elim (Bool-cases (contains names g)) [
            | inl r ↦ listed g r
            | inr r ↦ in_old m o users g q h (ground arith)
          ])
  ]

  member_loop-IsListed :
      (f : String → List String → Users → Users) (names members : List String) (users : Users)
      → ((m : String)
          → contains members m ≡ true
          → (g : String) → contains names g ≡ true
          → InGroup g m)
      → ((m : String) (us : Users)
          → contains members m ≡ true
          → IsListed us
          → IsListed (f m names us))
      → IsListed users
      → IsListed (member_loop f names members users)
  unfolding member_loop any
  member_loop-IsListed f names [] users listed deep h = h
  member_loop-IsListed f names (m ∷ rest) users listed deep h =
      let later = λ (us : Users) (k : IsListed us).
        member_loop-IsListed f names rest us (λ x c. listed x (ground arith))
          (λ x vs c. deep x vs (ground arith)) k in
      let here : contains (m ∷ rest) m ≡ true = ground (arith, ==_self m) in
      elim (Option-cases (GoMap.lookup m users)) [
        | inl q ↦ rw (q, member_loop) (later (f m names users) (deep m users here h))
        | inr (o, q) ↦
            rw (q, member_loop)
              (later (GoMap.put m (some (join_groups names o)) users)
                (put-IsListed m o names users q (listed m here) h))
      ]

  in_names :
      (parents : List String) (name x u : String)
      → ((p : String) → contains parents p ≡ true → (v : String) → InGroup name v → InGroup p v)
      → contains (parents ++ name ∷ []) x ≡ true
      → InGroup name u
      → InGroup x u
  in_names parents name x u chain c i = elim (Bool-cases (contains parents x)) [
    | inl q ↦ chain x q u i
    | inr q ↦
        subst (λ y. InGroup y u)
          ((==_iff name x).0 (ground (arith, contains-append parents name x))) i
  ]

  -- `groupMap` keeps that users are only in groups that list them, where each parent lists the group.
  group_map-IsListed :
      (fuel : ℕ) (name : String) (parents : List String) (users : Users)
      → ((p : String) → contains parents p ≡ true → (u : String) → InGroup name u → InGroup p u)
      → IsListed users
      → IsListed (group_map fuel groups name parents users)
  unfolding group_map any
  group_map-IsListed zero name parents users chain h = h
  group_map-IsListed (suc fuel) name parents users chain h =
      elim (Bool-cases (contains parents name)) [
        | inl q ↦ rw (q, group_map) h
        | inr q ↦ elim (Option-cases (GoMap.lookup name groups)) [
          | inl p ↦ rw (q, p, group_map) h
          | inr (none, p) ↦ rw (q, p, group_map) h
          | inr (some g, p) ↦
              let names = parents ++ name ∷ [] in
              let lift = λ (x u : String) (c : contains names x ≡ true) (i : InGroup name u).
                in_names parents name x u chain c i in
              rw (q, p, group_map)
                (member_loop-IsListed _ names g.members users
                  (λ m c x d. lift x m d (direct name m g p c))
                  (λ m us c k.
                    group_map-IsListed fuel m names us
                      (λ x d u i. lift x u d (nested name m u g p c i)) k)
                  h)
        ]
      ]

map_groups-groups :
    (fuel : ℕ) (names : List String) (ac : AuthConf) → (map_groups fuel names ac).groups ≡ ac.groups
unfolding map_groups
map_groups-groups fuel [] ac = refl
map_groups-groups fuel (name ∷ names) ac =
    map_groups-groups fuel names (record ac { users = group_map fuel ac.groups name [] ac.users })

map_groups-IsListed :
    (fuel : ℕ) (names : List String) (ac : AuthConf)
    → IsListed ac.groups ac.users
    → IsListed ac.groups (map_groups fuel names ac).users
unfolding map_groups any
map_groups-IsListed fuel [] ac h = h
map_groups-IsListed fuel (name ∷ names) ac h =
    map_groups-IsListed fuel names (record ac { users = group_map fuel ac.groups name [] ac.users })
      (group_map-IsListed ac.groups fuel name [] ac.users (λ p c u i. ground arith) h)

-- In a configuration as it is read, where no user has groups yet, the loading puts a user only into
-- groups that list the user, or that list a group that the user is in.
pub map_groups-InGroup :
    (fuel : ℕ) (names : List String) (ac : AuthConf) (u g : String) (au : AuthUser)
    → ((v : String) (av : AuthUser) → GoMap.lookup v ac.users ≡ some (some av) → av.groups ≡ [])
    → GoMap.lookup u (map_groups fuel names ac).users ≡ some (some au)
    → contains au.groups g ≡ true
    → InGroup ac.groups g u
unfolding any
map_groups-InGroup fuel names ac u g au fresh p c =
    map_groups-IsListed fuel names ac
      (λ v av x q d. ground (arith, ap (λ gs. contains gs x) (fresh v av q))) u au g p c
