-- ===== src/Version/Tests.antt =====
-- Versions of concrete build information.
use clusterrebootd.Prelude.{◌≡◌, refl, some, [], ◌∷◌}
use clusterrebootd.Text.{codes, trim_space, is_space, text_eq}
use clusterrebootd.Version.{
  default_version, sanitize_module_version, read_settings, derive_from_settings, derive_version,
}

-- A modified tree that was not built as a module.
dirty_version :
    derive_version default_version (
      some (record {
        main_version = codes "(devel)";
        settings =
            (codes "vcs.revision", codes " 0123456789abcdef ")
            ∷ (codes "vcs.modified", codes "true")
            ∷ [];
      }))
    ≡ codes "devel+0123456789ab-dirty"
unfolding derive_version sanitize_module_version derive_from_settings read_settings trim_space
    is_space text_eq
dirty_version = refl
