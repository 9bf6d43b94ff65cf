-- ===== src/Etcd/KeyLaws.antt =====
-- The keys that `applyNamespace` makes, and the managers that `NewEtcdManager` of pkg/lock makes.
use clusterrebootd.Prelude.{
  ℕ, ◌+◌, ◌*◌, ◌^◌, ◌≤◌, ◌<◌, ◌≡◌, refl, sym, ap, subst, ◌∙◌, Bool, true, false, [], ◌∷◌, ◌++◌,
  arith, if◌then◌else◌, is_nil, pos, ok, err, Result, leb_ℤ, ℤ,
}
use clusterrebootd.Text.{Text, is_blank}
use clusterrebootd.Etcd.Keys.{
  trim_left_slashes, trim_right_slashes, trim_slashes, apply_namespace, LockOptions, LockManager,
  OptionsError, no_endpoint, blank_key, no_ttl, blank_node, positive_nanos, ceil_seconds,
  new_lock_manager,
}

trim_right-slash : (s : Text) → trim_right_slashes (s ++ b'/' ∷ []) ≡ trim_right_slashes s
unfolding trim_right_slashes
trim_right-slash [] = refl
trim_right-slash (c ∷ cs) = ground (arith, trim_right-slash cs)

trim_slashes-end : (s : Text) → trim_slashes (s ++ b'/' ∷ []) ≡ trim_slashes s
unfolding trim_left_slashes trim_right_slashes
trim_slashes-end [] = refl
trim_slashes-end (c ∷ cs) = ground (arith, trim_slashes-end cs, trim_right-slash cs)

-- Slashes around the namespace, and before the key, make no other key.
pub apply_namespace-slashes :
    (namespace key : Text)
    → apply_namespace (b'/' ∷ (namespace ++ b'/' ∷ [])) (b'/' ∷ key) ≡ apply_namespace namespace key
unfolding apply_namespace trim_left_slashes
apply_namespace-slashes namespace key = rw (trim_slashes-end namespace) refl

ceil_seconds-bounds :
    (n : ℕ) → (n ≤ ceil_seconds n * 10 ^ 9) × (ceil_seconds n * 10 ^ 9 < n + 10 ^ 9)
unfolding ceil_seconds
ceil_seconds-bounds n = (omega arith, omega arith)

-- What is returned after a test that can fail.
pub passed :
    {A : Type 0} (failed : Bool) (e : OptionsError) (rest : Result OptionsError A) (a : A)
    → (if failed then err e else rest) ≡ ok a
    → (failed ≡ false) × (rest ≡ ok a)
passed true e rest a h = cc
passed false e rest a h = (refl, h)

one_second : (n : ℕ) → leb_ℤ (pos n) (pos 0) ≡ false → 1 ≤ ceil_seconds n
unfolding ceil_seconds
one_second n h = let positive : 1 ≤ n = ground (arith, h) in omega arith

abbrev ttl_of : Result OptionsError LockManager → ℕ
ttl_of (ok m) = m.ttl_seconds
ttl_of (err e) = 0

-- A manager that `NewEtcdManager` makes from a TTL has a lease of whole seconds that is not shorter,
-- less than a second longer, and has one second at least.
pub new_lock_manager-ttl :
    (own_pid : ℤ) (o : LockOptions) (m : LockManager) (n : ℕ)
    → new_lock_manager own_pid o ≡ ok m
    → o.ttl ≡ pos n
    → (n ≤ m.ttl_seconds * 10 ^ 9) × (m.ttl_seconds * 10 ^ 9 < n + 10 ^ 9) × (1 ≤ m.ttl_seconds)
unfolding new_lock_manager positive_nanos
new_lock_manager-ttl own_pid o m n made ttl =
    let (_, made1) = passed (is_nil o.endpoints) no_endpoint _ m made in
    let (_, made2) = passed (is_blank o.lock_key) blank_key _ m made1 in
    let (positive, made3) = passed (leb_ℤ o.ttl (pos 0)) no_ttl _ m made2 in
    let (_, made4) = passed (is_blank o.node_name) blank_node _ m made3 in
    let seconds : ceil_seconds n ≡ m.ttl_seconds =
      ap (λ t. ceil_seconds (positive_nanos t)) (sym ttl) ∙ ap ttl_of made4 in
    subst (λ k. (n ≤ k * 10 ^ 9) × (k * 10 ^ 9 < n + 10 ^ 9) × (1 ≤ k)) seconds
      (let (above, below) = ceil_seconds-bounds n in
        (above, below, one_second n (ap (λ t. leb_ℤ t (pos 0)) (sym ttl) ∙ positive)))
