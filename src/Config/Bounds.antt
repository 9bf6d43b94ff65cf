-- ===== src/Config/Bounds.antt =====
-- What the numbers of a configuration without problems satisfy (pkg/config/config.go).
use clusterrebootd.Prelude.{
  ◌<◌, ◌≤◌, ◌≡◌, refl, sym, ◌∙◌, Bool, true, false, not, ◌&&◌, List, [], ◌∷◌, ◌++◌, map, arith,
  is_nil, ℤ, pos, negsuc, pos_part, neg_part, leb_ℤ, ltb_ℤ, ◌↔◌,
}
use clusterrebootd.Config.Types.{Config}
use clusterrebootd.Config.Validate.{problem_if, number_problems}

pub is_nil-append : {A : Type 0} (xs ys : List A) → is_nil (xs ++ ys) ≡ (is_nil xs && is_nil ys)
is_nil-append [] ys = refl
is_nil-append (x ∷ xs) ys = refl

pub is_nil-map : {A B : Type 0} (f : A → B) (xs : List A) → is_nil (map f xs) ≡ is_nil xs
is_nil-map f [] = refl
is_nil-map f (x ∷ xs) = refl

pub is_nil-problem_if : {A : Type 0} (b : Bool) (p : A) → is_nil (problem_if b p) ≡ not b
is_nil-problem_if true p = refl
is_nil-problem_if false p = refl

-- The numbers of a valid configuration: positive, in order, and a lease that outlives a run of the
-- health script.
pub record HasBounds (c : Config) : Type 0 where
  pub health_timeout : 0 < pos_part c.health_timeout_sec
  pub publish_interval : 0 < pos_part c.health_publish_interval_sec
  pub check_interval : 0 < pos_part c.check_interval_sec
  pub backoff_min : 0 < pos_part c.backoff_min_sec
  pub backoff_order : pos_part c.backoff_min_sec ≤ pos_part c.backoff_max_sec
  pub reboot_interval : neg_part c.min_reboot_interval_sec ≡ 0
  pub lock_ttl : pos_part c.health_timeout_sec < pos_part c.lock_ttl_sec

positive_iff : (z : ℤ) → (leb_ℤ z (pos 0) ≡ false) ↔ (0 < pos_part z)
positive_iff (pos n) = ground arith
positive_iff (negsuc n) = ground arith

pub non_negative_iff : (z : ℤ) → (ltb_ℤ z (pos 0) ≡ false) ↔ (neg_part z ≡ 0)
non_negative_iff (pos n) = ground arith
non_negative_iff (negsuc n) = ground arith

below_iff :
    (a b : ℤ) → 0 < pos_part a → 0 < pos_part b → (ltb_ℤ b a ≡ false) ↔ (pos_part a ≤ pos_part b)
below_iff (pos n) (pos m) h k = ground arith
below_iff (pos n) (negsuc m) h k = ground arith
below_iff (negsuc n) b h k = ground arith

ttl_iff :
    (a b : ℤ) → 0 < pos_part a → 0 < pos_part b → (leb_ℤ b a ≡ false) ↔ (pos_part a < pos_part b)
ttl_iff (pos n) (pos m) h k = ground arith
ttl_iff (pos n) (negsuc m) h k = ground arith
ttl_iff (negsuc n) b h k = ground arith

tests : Config → Bool
tests c =
    not (leb_ℤ c.health_timeout_sec (pos 0))
    && not (leb_ℤ c.health_publish_interval_sec (pos 0))
    && not (leb_ℤ c.check_interval_sec (pos 0))
    && not (leb_ℤ c.backoff_min_sec (pos 0))
    && not (leb_ℤ c.backoff_max_sec (pos 0))
    && not (ltb_ℤ c.backoff_max_sec c.backoff_min_sec)
    && not (ltb_ℤ c.min_reboot_interval_sec (pos 0))
    && not (leb_ℤ c.lock_ttl_sec (pos 0))
    && not (leb_ℤ c.lock_ttl_sec c.health_timeout_sec)

numbers-tests : (c : Config) → is_nil (number_problems c) ≡ tests c
unfolding number_problems tests
numbers-tests c = simp (is_nil-append, is_nil-problem_if) refl

pub numbers-HasBounds : (c : Config) → is_nil (number_problems c) ≡ true → HasBounds c
unfolding tests
numbers-HasBounds c h =
    let t : tests c ≡ true = sym (numbers-tests c) ∙ h in
    let health = (positive_iff c.health_timeout_sec).0 (ground (arith, t)) in
    let least = (positive_iff c.backoff_min_sec).0 (ground (arith, t)) in
    let most = (positive_iff c.backoff_max_sec).0 (ground (arith, t)) in
    let ttl = (positive_iff c.lock_ttl_sec).0 (ground (arith, t)) in
    record {
      health_timeout = health;
      publish_interval = (positive_iff c.health_publish_interval_sec).0 (ground (arith, t));
      check_interval = (positive_iff c.check_interval_sec).0 (ground (arith, t));
      backoff_min = least;
      backoff_order =
          (below_iff c.backoff_min_sec c.backoff_max_sec least most).0 (ground (arith, t));
      reboot_interval = (non_negative_iff c.min_reboot_interval_sec).0 (ground (arith, t));
      lock_ttl = (ttl_iff c.health_timeout_sec c.lock_ttl_sec health ttl).0 (ground (arith, t));
    }

pub HasBounds-numbers : (c : Config) → HasBounds c → is_nil (number_problems c) ≡ true
unfolding tests
HasBounds-numbers c h =
    let most : 0 < pos_part c.backoff_max_sec = omega (arith, h.backoff_min, h.backoff_order) in
    let ttl : 0 < pos_part c.lock_ttl_sec = omega (arith, h.lock_ttl) in
    numbers-tests c
    ∙ ground (
      arith,
      (positive_iff c.health_timeout_sec).1 h.health_timeout,
      (positive_iff c.health_publish_interval_sec).1 h.publish_interval,
      (positive_iff c.check_interval_sec).1 h.check_interval,
      (positive_iff c.backoff_min_sec).1 h.backoff_min,
      (positive_iff c.backoff_max_sec).1 most,
      (below_iff c.backoff_min_sec c.backoff_max_sec h.backoff_min most).1 h.backoff_order,
      (non_negative_iff c.min_reboot_interval_sec).1 h.reboot_interval,
      (positive_iff c.lock_ttl_sec).1 ttl,
      (ttl_iff c.health_timeout_sec c.lock_ttl_sec h.health_timeout ttl).1 h.lock_ttl,
    )
