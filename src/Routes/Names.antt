-- ===== src/Routes/Names.antt =====
-- The path that a client builds from the name of a repository reaches the handler of that repository,
-- whatever the elements of the name are (olareg.go).
use olareg.Shared.{
  suc, ◌+◌, ◌-◌, String, List, [], ◌∷◌, ◌++◌, none, some, Bool, true, false, ◌&&◌, ◌≡◌, refl, ap,
  ◌==◌, string_comparable, arith, if◌then◌else◌, ltb,
}
use olareg.Shared.Slices.{length, take, drop}
use olareg.Auth.{read}
use olareg.Config.{ConfigApi}
use olareg.RequestPath.{re_path, join_path, Pattern, repo_value, one, literal, match_loop, match_v2}
use olareg.Routes.{
  Method, get, handled, tag_list, manifest_route, blob_route, referrer_route, late_route, route,
}

length-append : (xs ys : List String) → length (xs ++ ys) ≡ length xs + length ys
length-append [] ys = omega arith
length-append (x ∷ xs) ys = omega (arith, length-append xs ys)

take-append : (xs ys : List String) → take (length xs) (xs ++ ys) ≡ xs
take-append [] ys = refl
take-append (x ∷ xs) ys = ap (λ zs. x ∷ zs) (take-append xs ys)

drop-append : (xs ys : List String) → drop (length xs) (xs ++ ys) ≡ ys
drop-append [] ys = refl
drop-append (x ∷ xs) ys = drop-append xs ys

-- The name takes what the other patterns leave.
match-name :
    (names tail : List String) (ps : List Pattern)
    → length tail ≡ length ps
    → match_loop (repo_value ∷ ps) (names ++ tail) "" []
      ≡ match_loop ps tail (join_path names) (join_path names ∷ [])
unfolding match_loop
match-name names tail ps h =
    let n : length (names ++ tail) - length ps ≡ length names =
      omega (arith, length-append names tail, h) in
    rw (n, take-append names tail, drop-append names tail, match_loop) refl

match_loop-two :
    (a b p repo : String) (ms : List String)
    → match_loop (literal p ∷ one ∷ []) (a ∷ b ∷ []) repo ms
      ≡ (if a == p then some (repo, ms ++ b ∷ []) else none)
unfolding match_loop
match_loop-two a b p repo ms = refl

-- A path with a name and two more elements.
match_v2-two :
    (n : String) (ns : List String) (a b : String) (p : String)
    → re_path (join_path (n ∷ ns)) ≡ true
    → match_v2 ("v2" ∷ n ∷ ns ++ a ∷ b ∷ []) (repo_value ∷ literal p ∷ one ∷ [])
      ≡ (if a == p then some (join_path (n ∷ ns) ∷ b ∷ []) else none)
unfolding match_v2
match_v2-two n ns a b p h =
    let m = match-name (n ∷ ns) (a ∷ b ∷ []) (literal p ∷ one ∷ []) refl in
    let long : ltb (suc (length (n ∷ ns ++ a ∷ b ∷ []))) 4 ≡ false =
      ground (arith, length-append ns (a ∷ b ∷ [])) in
    rw (long, m, match_v2)
      (ground (arith, h, match_loop-two a b p (join_path (n ∷ ns)) (join_path (n ∷ ns) ∷ [])))

match_loop-tags :
    (a b repo : String) (ms : List String)
    → match_loop (literal "tags" ∷ literal "list" ∷ []) (a ∷ b ∷ []) repo ms
      ≡ (if a == "tags" && b == "list" then some (repo, ms) else none)
unfolding match_loop
match_loop-tags a b repo ms = ground arith

match_v2-tags :
    (n : String) (ns : List String) (a b : String)
    → re_path (join_path (n ∷ ns)) ≡ true
    → match_v2 ("v2" ∷ n ∷ ns ++ a ∷ b ∷ []) (repo_value ∷ literal "tags" ∷ literal "list" ∷ [])
      ≡ (if a == "tags" && b == "list" then some (join_path (n ∷ ns) ∷ []) else none)
unfolding match_v2
match_v2-tags n ns a b h =
    let m = match-name (n ∷ ns) (a ∷ b ∷ []) (literal "tags" ∷ literal "list" ∷ []) refl in
    let long : ltb (suc (length (n ∷ ns ++ a ∷ b ∷ []))) 4 ≡ false =
      ground (arith, length-append ns (a ∷ b ∷ [])) in
    rw (long, m, match_v2)
      (ground (arith, h, match_loop-tags a b (join_path (n ∷ ns)) (join_path (n ∷ ns) ∷ [])))

match_v2-ping : (n : String) (ns : List String) → match_v2 ("v2" ∷ n ∷ ns) [] ≡ none
unfolding match_v2 match_loop
match_v2-ping n ns = ground arith

-- For a name that `rePath` matches, in any number of elements, and whatever these are: the paths of
-- its manifests, blobs, referrers and, by GET, tags reach the handlers of that name.
pub route-names :
    (api : ConfigApi) (has_token : Bool) (m : Method) (n : String) (ns : List String) (arg : String)
    → re_path (join_path (n ∷ ns)) ≡ true
    → (route api has_token m ("v2" ∷ n ∷ ns ++ "manifests" ∷ arg ∷ [])
        ≡ manifest_route api m (join_path (n ∷ ns)) arg)
      × ((route api has_token m ("v2" ∷ n ∷ ns ++ "blobs" ∷ arg ∷ [])
            ≡ blob_route api m (join_path (n ∷ ns)) arg)
          × ((route api has_token m ("v2" ∷ n ∷ ns ++ "referrers" ∷ arg ∷ [])
                ≡ referrer_route api m (join_path (n ∷ ns)) arg)
              × (route api has_token get ("v2" ∷ n ∷ ns ++ "tags" ∷ "list" ∷ [])
                  ≡ handled (tag_list (join_path (n ∷ ns))) (join_path (n ∷ ns)) read)))
unfolding route late_route
route-names api has_token m n ns arg h =
    let quiet = λ (a b : String). match_v2-ping n (ns ++ a ∷ b ∷ []) in
    let two = λ (a b p : String). match_v2-two n ns a b p h in
    (
      ground (arith, quiet "manifests" arg, two "manifests" arg "manifests"),
      (
        ground (arith, quiet "blobs" arg, two "blobs" arg "manifests", two "blobs" arg "blobs"),
        (
          ground (
            arith,
            quiet "referrers" arg,
            two "referrers" arg "manifests",
            two "referrers" arg "blobs",
            two "referrers" arg "referrers",
          ),
          ground (
            arith,
            quiet "tags" "list",
            two "tags" "list" "manifests",
            two "tags" "list" "blobs",
            two "tags" "list" "referrers",
            match_v2-tags n ns "tags" "list" h,
          ),
        ),
      ),
    )
