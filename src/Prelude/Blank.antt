-- ===== src/Prelude/Blank.antt =====
-- PostgreSQL's `btrim`, as far as a CHECK reads it.
use Prim.Native.Char.{code}
use Prim.Native.String.{String, [], ◌∷◌}
use mathlib.Core.Bool.{Bool, true, ◌&&◌}
use dbtx.Prelude.Tests.{nat_beq}

-- `btrim(unique_id) = ''`: a text of spaces.
abbrev pub is_blank : String → Bool
is_blank [] = true
is_blank (c ∷ rest) = nat_beq (code c) 32 && is_blank rest
