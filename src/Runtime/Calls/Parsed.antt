-- ===== src/Runtime/Calls/Parsed.antt =====
-- What a launch finds behind any calls, with a host whose parser is the parser of Ptx/Parse.
use Prim.Native.String.{String}
use rouge_v.Base.{List, [], ◌∷◌}
use rouge_v.Runtime.{World}
use rouge_v.Runtime.Calls
use rouge_v.Runtime.Calls.{RuntimeCall}
use rouge_v.Runtime.Calls.Programs.{Parses}

-- The host's parser is the parser in the world of each call.
abbrev pub AllParse : List (World × RuntimeCall) → Type 0
AllParse [] = Unit {0}
AllParse ((world, call) ∷ calls) = Parses world × AllParse calls
