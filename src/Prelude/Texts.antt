-- ===== src/Prelude/Texts.antt =====
-- Sets of texts, and Python's `permission.rsplit(":", 1)[-1]`.
use Prim.Native.String.{String}
use mathlib.Core.Bool.{Bool}
use mathlib.Core.List.{List}
use text.Mathlib.Text.{◌==◌ as str_eq}
use aiops_x_enterprise_new.Prelude.Lists.{some_of}

-- `x in s` for a list or set of texts.
abbrev pub has_text : String → List String → Bool
has_text a xs = some_of (λ x. str_eq x a) xs

-- Two sets of texts meet.
abbrev pub meets : List String → List String → Bool
meets xs ys = some_of (λ x. has_text x ys) xs
