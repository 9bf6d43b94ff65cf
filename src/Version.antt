-- ===== src/Version.antt =====
-- pkg/version/version.go: the version of the binary. The build information is a parameter; what Go
-- records as a revision is ASCII, so that its bytes are its characters.
use clusterrebootd.Prelude.{
  ℕ, Bool, true, false, not, ◌&&◌, ◌||◌, Option, none, some, List, [], ◌∷◌, ◌++◌, if◌then◌else◌,
  is_nil, take, length, ltb,
}
use clusterrebootd.Text.{Text, codes, trim_space, text_eq}
pub mod Laws
mod Tests

-- `debug.BuildInfo`, as far as it is read: the version of the main module and the settings.
pub record BuildInfo : Type 0 where
  pub main_version : Text
  pub settings : List (Text × Text)

abbrev pub default_version : Text
default_version = codes "0.1.0-dev"

-- `sanitizeModuleVersion`
unfoldable pub sanitize_module_version : Text → Text
sanitize_module_version v =
    let trimmed = trim_space v in
    if is_nil trimmed || text_eq trimmed (codes "(devel)") then [] else trimmed

-- The loop over the settings: the revision, and whether the tree was modified.
unfoldable pub read_settings : Text → Bool → List (Text × Text) → Text × Bool
read_settings revision modified [] = (revision, modified)
read_settings revision modified ((key, value) ∷ settings) =
    if text_eq key (codes "vcs.revision")
    then read_settings (trim_space value) modified settings
    else if text_eq key (codes "vcs.modified")
    then read_settings revision (text_eq value (codes "true")) settings
    else read_settings revision modified settings

-- `if len(revision) > 12 { revision = revision[:12] }`
abbrev pub shorten : Text → Text
shorten revision = if ltb 12 (length revision) then take 12 revision else revision

abbrev pub settings_version : Text × Bool → Text
settings_version (revision, modified) =
    if is_nil revision
    then []
    else codes "devel+" ++ (shorten revision ++ (if modified then codes "-dirty" else []))

-- `deriveFromSettings`
unfoldable pub derive_from_settings : List (Text × Text) → Text
derive_from_settings settings = settings_version (read_settings [] false settings)

abbrev derive_from_info : Text → Option BuildInfo → Text
derive_from_info current none = current
derive_from_info current (some info) =
    let main = sanitize_module_version info.main_version in
    let devel = derive_from_settings info.settings in
    if not (is_nil main) then main else if not (is_nil devel) then devel else current

-- `deriveVersion`
unfoldable pub derive_version : Text → Option BuildInfo → Text
derive_version current info =
    if not (is_nil current) && not (text_eq current default_version)
    then current
    else derive_from_info current info
