-- ===== src/Version/Laws.antt =====
-- Deriving the version (pkg/version/version.go).
use clusterrebootd.Prelude.{◌≡◌, false, Option, none, some, is_nil, arith}
use clusterrebootd.Text.{Text}
use clusterrebootd.Version.{BuildInfo, derive_version}

-- A version that was derived is derived again as itself, whatever was set when the binary was linked.
pub derive_version_idem :
    (current : Text) (info : Option BuildInfo)
    → derive_version (derive_version current info) info ≡ derive_version current info
unfolding derive_version
derive_version_idem current none = ground arith
derive_version_idem current (some info) = ground arith

-- A binary that was linked with a version has one that is not empty.
pub derive_version-known :
    (current : Text) (info : Option BuildInfo)
    → is_nil current ≡ false
    → is_nil (derive_version current info) ≡ false
unfolding derive_version
derive_version-known current none h = ground (arith, h)
derive_version-known current (some info) h = ground (arith, h)
