-- ===== src/Base/Text.antt =====
-- Names: native texts, of which the code asks whether two are equal and how one starts.
use Prim.Native.String.{String}
use mathlib.Core.Path.{◌≡◌}
use mathlib.Core.Logic.{◌↔◌}
use mathlib.Core.Bool.{Bool, true}
use text.Mathlib.Text
use text.Mathlib.Text.{◌==◌}
use text.Mathlib.TextEquality.{eq_iff}

abbrev pub same_name : String → String → Bool
same_name s t = s == t

pub same_name_iff : (s t : String) → (same_name s t ≡ true) ↔ (s ≡ t)
same_name_iff s t = eq_iff s t

-- `s.rfind(t, 0) == 0`.
abbrev pub starts_with : String → String → Bool
starts_with s t = Text.starts_with s t
