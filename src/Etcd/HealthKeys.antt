-- ===== src/Etcd/HealthKeys.antt =====
-- The keys of `NewEtcdManager` of pkg/clusterhealth/etcd.go: what a node stores lies under the prefix
-- that `Status` lists.
use clusterrebootd.Prelude.{
  ◌≡◌, refl, ap, subst, ◌∙◌, Bool, true, false, not, ◌&&◌, ◌||◌, List, [], ◌∷◌, ◌++◌, ◌==◌, arith,
  if◌then◌else◌, is_nil, any, Result, ok, err,
}
use clusterrebootd.Text.{Text, codes, text_eq, split, is_blank}
use clusterrebootd.Etcd.Keys.{OptionsError, no_endpoint, blank_node, trim_right_slashes}
use clusterrebootd.Etcd.KeyLaws.{passed}
use clusterrebootd.Etcd.Health.{HealthManager, new_health_manager, ends_in_slash, listed_prefix}

-- A rooted path that `path.Clean` leaves as it is: no element is empty, `.` or `..`.
unfoldable pub is_clean : Text → Bool
is_clean [] = false
is_clean (c ∷ s) =
    c == b'/'
    && not (any (λ e. is_nil e || text_eq e (codes ".") || text_eq e (codes "..")) (split b'/' s))

-- What is documented of `path.Join`: it joins elements that are not empty by a slash, and cleans the
-- path.
abbrev pub JoinsPaths : (Text → Text → Text) → Type 0
JoinsPaths join_path =
    (a b : Text)
    → is_nil a ≡ false
    → is_clean (a ++ b'/' ∷ b) ≡ true
    → join_path a b ≡ a ++ b'/' ∷ b

-- `key` is in the range of keys that a list with this prefix asks for.
unfoldable pub starts_with : Text → Text → Bool
starts_with [] key = true
starts_with (p ∷ ps) [] = false
starts_with (p ∷ ps) (c ∷ cs) = p == c && starts_with ps cs

starts_with-append : (prefix rest : Text) → starts_with prefix (prefix ++ rest) ≡ true
unfolding starts_with
starts_with-append [] rest = refl
starts_with-append (p ∷ ps) rest = ground (arith, starts_with-append ps rest)

append-slash : (a b : Text) → a ++ b'/' ∷ b ≡ (a ++ b'/' ∷ []) ++ b
append-slash [] b = refl
append-slash (c ∷ a) b = ap (λ s. c ∷ s) (append-slash a b)

trimmed-cons :
    (c : _) (rest : Text)
    → ends_in_slash rest ≡ false
    → ends_in_slash (if is_nil rest && c == b'/' then [] else c ∷ rest) ≡ false
unfolding ends_in_slash
trimmed-cons c [] h = ground arith
trimmed-cons c (d ∷ rest) h = h

ends_in_slash-trim_right : (s : Text) → ends_in_slash (trim_right_slashes s) ≡ false
unfolding trim_right_slashes ends_in_slash
ends_in_slash-trim_right [] = refl
ends_in_slash-trim_right (c ∷ cs) =
    trimmed-cons c (trim_right_slashes cs) (ends_in_slash-trim_right cs)

-- What is made of a manager.
abbrev IsKeyed : (Text → Text → Text) → HealthManager → Type 0
IsKeyed join_path m =
    (ends_in_slash m.prefix ≡ false)
    × (m.node_path ≡ join_path m.prefix m.node)
    × (is_nil m.node ≡ false)

abbrev manager_or : HealthManager → Result OptionsError HealthManager → HealthManager
manager_or m (ok n) = n
manager_or m (err e) = m

new_health_manager-IsKeyed :
    (join_path : Text → Text → Text) (endpoints : List Text) (prefix namespace name : Text)
    (m : HealthManager)
    → new_health_manager join_path endpoints prefix namespace name ≡ ok m
    → IsKeyed join_path m
unfolding new_health_manager
new_health_manager-IsKeyed join_path endpoints prefix namespace name m made =
    let (_, made1) = passed (is_nil endpoints) no_endpoint _ m made in
    let (named, made2) = passed (is_blank name) blank_node _ m made1 in
    subst (IsKeyed join_path) (ap (manager_or m) made2) (ends_in_slash-trim_right _, refl, named)

listed_prefix-slash :
    (prefix : Text)
    → is_nil prefix ≡ false
    → ends_in_slash prefix ≡ false
    → listed_prefix prefix ≡ prefix ++ b'/' ∷ []
unfolding listed_prefix
listed_prefix-slash prefix h e = rw (h, e)

-- The node of a manager has a name; and where its prefix is not empty and its path needs no
-- cleaning, its key lies under the prefix that `Status` lists.
pub new_health_manager-listed :
    (join_path : Text → Text → Text) (endpoints : List Text) (prefix namespace name : Text)
    (m : HealthManager)
    → JoinsPaths join_path
    → new_health_manager join_path endpoints prefix namespace name ≡ ok m
    → is_nil m.prefix ≡ false
    → is_clean (m.prefix ++ b'/' ∷ m.node) ≡ true
    → (is_nil m.node ≡ false) × (starts_with (listed_prefix m.prefix) m.node_path ≡ true)
new_health_manager-listed join_path endpoints prefix namespace name m joins made some_prefix clean =
    let (ends, path, named) =
      new_health_manager-IsKeyed join_path endpoints prefix namespace name m made in
    (
      named,
      rw
          (
            listed_prefix-slash m.prefix some_prefix ends,
            path,
            joins m.prefix m.node some_prefix clean,
          )
          (ap (starts_with (m.prefix ++ b'/' ∷ [])) (append-slash m.prefix m.node)
            ∙ starts_with-append (m.prefix ++ b'/' ∷ []) m.node),
    )
