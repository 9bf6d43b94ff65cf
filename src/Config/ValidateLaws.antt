-- ===== src/Config/ValidateLaws.antt =====
-- What a configuration without problems satisfies (pkg/config/config.go).
use clusterrebootd.Prelude.{
  ℕ, suc, ◌≡◌, refl, sym, subst, ap, ◌∙◌, true, false, not, ◌&&◌, Option, none, some, List, [], ◌∷◌,
  ◌++◌, arith, is_nil, ℤ, pos, neg_part, ltb_ℤ, Result, ok, err, All, ◌↔◌, ◌⊎◌, inl, inr,
}
use clusterrebootd.Text.{codes, is_blank, is_space}
use clusterrebootd.Text.Laws.{text_eq_iff, is_blank-cons}
use clusterrebootd.Config.Types.{DetectorConfig, EtcdTlsConfig, PolicyConfig, Fraction, Config}
use clusterrebootd.Config.Defaults.{apply_defaults}
use clusterrebootd.Config.Validate.{
  Problem, DetectorProblem, problem_if, kind_problems, detector_problems, detectors_problems,
  tls_problems, fraction_out, absolute_out, policy_problems, number_problems, problems, validate,
  after_validation, decode,
}
use clusterrebootd.Config.Bounds.{
  is_nil-append, is_nil-map, is_nil-problem_if, non_negative_iff, HasBounds, numbers-HasBounds,
  HasBounds-numbers,
}

-- The kind of a detector is known, and what it needs is there.
abbrev pub HasKind : DetectorConfig → Type 0
HasKind d =
    ((d.kind ≡ codes "file") × (is_blank d.path ≡ false))
    ⊎ ((d.kind ≡ codes "command") × (is_nil d.cmd ≡ false))

-- The timeout is not negative either.
abbrev pub IsSupported : DetectorConfig → Type 0
IsSupported d = HasKind d × (neg_part d.timeout_sec ≡ 0)

-- Where TLS is enabled, its three files are named.
abbrev pub HasFiles : Option EtcdTlsConfig → Type 0
HasFiles none = Unit
HasFiles (some tls) =
    tls.enabled ≡ true
    → (is_blank tls.ca_file ≡ false)
      × (is_blank tls.cert_file ≡ false)
      × (is_blank tls.key_file ≡ false)

-- The fraction, where there is one, is above 0 and at most 1.
abbrev pub HasFraction : Option Fraction → Type 0
HasFraction none = Unit
HasFraction (some f) = (f.at_most_zero ≡ false) × (f.above_one ≡ false)

-- The least number of healthy nodes, where there is one, is not negative.
abbrev pub HasMinimum : Option ℤ → Type 0
HasMinimum none = Unit
HasMinimum (some n) = neg_part n ≡ 0

pub record IsValid (c : Config) : Type 0 where
  pub node_name : is_blank c.node_name ≡ false
  pub some_detector : is_nil c.detectors ≡ false
  pub detectors : All IsSupported c.detectors
  pub health_script : is_blank c.health_script ≡ false
  pub bounds : HasBounds c
  pub lock_key : is_blank c.lock_key ≡ false
  pub endpoints : is_nil c.etcd_endpoints ≡ false
  pub tls : HasFiles c.etcd_tls
  pub reboot_command : is_nil c.reboot_command ≡ false
  pub fraction : HasFraction c.cluster_policies.min_healthy_fraction
  pub absolute : HasMinimum c.cluster_policies.min_healthy_absolute
  pub metrics : c.metrics.enabled ≡ true → is_blank c.metrics.listen ≡ false

kind-HasKind : (d : DetectorConfig) → (is_nil (kind_problems d) ≡ true) ↔ HasKind d
unfolding kind_problems
kind-HasKind d = ground (
  arith,
  text_eq_iff d.kind (codes "file"),
  text_eq_iff d.kind (codes "command"),
  text_eq_iff (codes "command") (codes "file"),
)

file_not_blank : is_blank (codes "file") ≡ false
unfolding is_space
file_not_blank = is_blank-cons b'f' (codes "ile") refl

command_not_blank : is_blank (codes "command") ≡ false
unfolding is_space
command_not_blank = is_blank-cons b'c' (codes "ommand") refl

kind_not_blank : (d : DetectorConfig) → HasKind d → is_blank d.kind ≡ false
kind_not_blank d (inl h) = ap is_blank h.0 ∙ file_not_blank
kind_not_blank d (inr h) = ap is_blank h.0 ∙ command_not_blank

timeout-tests :
    (d : DetectorConfig)
    → is_nil (
        kind_problems d
        ++ problem_if (ltb_ℤ d.timeout_sec (pos 0)) DetectorProblem.negative_timeout)
      ≡ (is_nil (kind_problems d) && not (ltb_ℤ d.timeout_sec (pos 0)))
timeout-tests d = simp (is_nil-append, is_nil-problem_if)

detector-IsSupported : (d : DetectorConfig) → (is_nil (detector_problems d) ≡ true) ↔ IsSupported d
unfolding detector_problems
detector-IsSupported d =
    ground
      (arith, kind-HasKind d, kind_not_blank d, timeout-tests d, non_negative_iff d.timeout_sec)

detectors-tests :
    (index : ℕ) (d : DetectorConfig) (ds : List DetectorConfig)
    → is_nil (detectors_problems index (d ∷ ds))
      ≡ (is_nil (detector_problems d) && is_nil (detectors_problems (suc index) ds))
unfolding detectors_problems
detectors-tests index d ds = simp (is_nil-append, is_nil-map)

detectors-All :
    (index : ℕ) (ds : List DetectorConfig)
    → (is_nil (detectors_problems index ds) ≡ true) ↔ All IsSupported ds
unfolding detectors_problems
detectors-All index [] = ((λ _. tt), λ _. refl)
detectors-All index (d ∷ ds) =
    let first = detector-IsSupported d in
    let rest = detectors-All (suc index) ds in
    let split = detectors-tests index d ds in
    (
      (λ h. (first.0 (ground (arith, split, h)), rest.0 (ground (arith, split, h)))),
      λ h. split ∙ ground (arith, first.1 h.0, rest.1 h.1),
    )

tls-HasFiles : (t : Option EtcdTlsConfig) → (is_nil (tls_problems t) ≡ true) ↔ HasFiles t
unfolding tls_problems
tls-HasFiles none = ground arith
tls-HasFiles (some t) = ground arith

fraction-HasFraction : (f : Option Fraction) → (fraction_out f ≡ false) ↔ HasFraction f
fraction-HasFraction none = ((λ _. tt), λ _. refl)
fraction-HasFraction (some f) = ground arith

absolute-HasMinimum : (n : Option ℤ) → (absolute_out n ≡ false) ↔ HasMinimum n
absolute-HasMinimum none = ((λ _. tt), λ _. refl)
absolute-HasMinimum (some n) = non_negative_iff n

policy_problems-tests :
    (p : PolicyConfig)
    → is_nil (policy_problems p)
      ≡ (not (fraction_out p.min_healthy_fraction) && not (absolute_out p.min_healthy_absolute))
unfolding policy_problems
policy_problems-tests p = simp (is_nil-append, is_nil-problem_if)

all-tests :
    (c : Config)
    → is_nil (problems c) ≡ (
        not (is_blank c.node_name)
        && not (is_nil c.detectors)
        && is_nil (detectors_problems 0 c.detectors)
        && not (is_blank c.health_script)
        && is_nil (number_problems c)
        && not (is_blank c.lock_key)
        && not (is_nil c.etcd_endpoints)
        && is_nil (tls_problems c.etcd_tls)
        && not (is_nil c.reboot_command)
        && is_nil (policy_problems c.cluster_policies)
        && not (c.metrics.enabled && is_blank c.metrics.listen))
unfolding problems
all-tests c = simp (is_nil-append, is_nil-problem_if)

problems-IsValid : (c : Config) → is_nil (problems c) ≡ true → IsValid c
problems-IsValid c h =
    let t = sym (all-tests c) ∙ h in
    let policies = policy_problems-tests c.cluster_policies in
    record {
      node_name = ground (arith, t);
      some_detector = ground (arith, t);
      detectors = (detectors-All 0 c.detectors).0 (ground (arith, t));
      health_script = ground (arith, t);
      bounds = numbers-HasBounds c (ground (arith, t));
      lock_key = ground (arith, t);
      endpoints = ground (arith, t);
      tls = (tls-HasFiles c.etcd_tls).0 (ground (arith, t));
      reboot_command = ground (arith, t);
      fraction =
          (fraction-HasFraction c.cluster_policies.min_healthy_fraction).0
            (ground (arith, t, policies));
      absolute =
          (absolute-HasMinimum c.cluster_policies.min_healthy_absolute).0
            (ground (arith, t, policies));
      metrics = ground (arith, t);
    }

IsValid-problems : (c : Config) → IsValid c → is_nil (problems c) ≡ true
IsValid-problems c v =
    all-tests c
    ∙ ground (
      arith,
      v.node_name,
      v.some_detector,
      (detectors-All 0 c.detectors).1 v.detectors,
      v.health_script,
      HasBounds-numbers c v.bounds,
      v.lock_key,
      v.endpoints,
      (tls-HasFiles c.etcd_tls).1 v.tls,
      v.reboot_command,
      (fraction-HasFraction c.cluster_policies.min_healthy_fraction).1 v.fraction,
      (absolute-HasMinimum c.cluster_policies.min_healthy_absolute).1 v.absolute,
      v.metrics,
      policy_problems-tests c.cluster_policies,
    )

pub validate-IsValid : (c : Config) → (validate c ≡ ok tt) ↔ IsValid c
unfolding validate
validate-IsValid c =
    ((λ h. problems-IsValid c (ground (arith, h))), λ v. ground (arith, IsValid-problems c v))

after_validation-ok :
    (c d : Config) (v : Result (List Problem) Unit)
    → after_validation c v ≡ ok d
    → (d ≡ c) × (v ≡ ok tt)
after_validation-ok c d (ok x) h = (cc, refl)
after_validation-ok c d (err ps) h = cc

-- What `decode` returns is the configuration with its defaults, and is valid.
pub decode-IsValid : (c d : Config) → decode c ≡ ok d → (d ≡ apply_defaults c) × IsValid d
unfolding decode
decode-IsValid c d h =
    let found = after_validation-ok (apply_defaults c) d (validate (apply_defaults c)) h in
    (found.0, subst IsValid (sym found.0) ((validate-IsValid (apply_defaults c)).0 found.1))
