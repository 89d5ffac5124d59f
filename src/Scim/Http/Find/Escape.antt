-- ===== src/Scim/Http/Find/Escape.antt =====
-- strings.NewReplacer(`\`, `\\`, `"`, `\"`) of externalIDFilterPath.
use Prim.Native.Char.{code}
use Prim.Native.String.{String}
use scimtest.Prelude.{◌||◌, eqb, if◌then◌else◌}

unfoldable pub escape : String → String
escape String.[] = String.[]
escape (String.◌∷◌ c s) =
    let rest = String.◌∷◌ c (escape s) in
    if eqb (code c) 0x5c || eqb (code c) 0x22 then String.◌∷◌ "\\" rest else rest
