-- ===== src/Parser/Suffix.antt =====
-- strings.HasSuffix on names, character by character.
use Prim.Native.String.{String, [], ◌∷◌}
use cirrus_cli.Prelude.{Bool, true, str_eq, if◌then◌else◌}

-- strings.HasSuffix s suffix
unfoldable pub ends_with : String → String → Bool
ends_with [] suffix = str_eq [] suffix
ends_with (c ∷ s) suffix =
    let rest = ends_with s suffix in if str_eq (c ∷ s) suffix then true else rest
