-- ===== src/Ptx/Layout/Examples.antt =====
-- Declarations with names that are numbers.
use rouge_v.Base.{ℕ, ◌%◌, ◌≡◌, ◌==◌, Bool, List, [], ◌∷◌, refl, arith}
use rouge_v.Ptx.Layout.{
  Token, dot_align, dot_type, variable, sized, no_brackets, Shared, Local, align_up, int_div,
  place_shared, shared_tokens, parse_shared_decl, parse_local_decl,
}
use rouge_v.Ptx.Layout.Packed.{
  SharedPacked, LocalPacked, parse_shared_decl-SharedPacked, parse_local_decl-LocalPacked,
}

-- A byte array of 5, then doubles: `.b8 a[5], .align 8 .b64 b[3]`.
abbrev tile_tokens : List (Token ℕ)
tile_tokens =
    dot_type 1 ∷ variable 1 (sized 5) ∷ dot_align 8 ∷ dot_type 8 ∷ variable 2 (sized 3) ∷ []

abbrev no_shared : Shared ℕ
no_shared = record { shared_vars = []; shared_size = 0 }

abbrev no_local : Local ℕ
no_local = record { local_vars = []; local_size = 0 }

abbrev same : ℕ → ℕ → Bool
same a b = a == b

shared_bytes : (parse_shared_decl same tile_tokens no_shared).shared_size ≡ 32
unfolding parse_shared_decl shared_tokens place_shared align_up int_div
shared_bytes = refl

-- A variable without brackets takes no room.
scalar_dropped :
    (parse_shared_decl same (dot_type 4 ∷ variable 1 no_brackets ∷ []) no_shared).shared_vars ≡ []
unfolding parse_shared_decl shared_tokens
scalar_dropped = refl

parse_shared_decl-SharedPacked_example :
    SharedPacked (parse_shared_decl same tile_tokens no_shared)
    × ((parse_shared_decl same tile_tokens no_shared).shared_size % 16 ≡ 0)
parse_shared_decl-SharedPacked_example =
    parse_shared_decl-SharedPacked same tile_tokens no_shared (omega arith, (omega arith, tt))
      (omega arith) (omega arith)

parse_local_decl-LocalPacked_example : LocalPacked (parse_local_decl same tile_tokens no_local)
parse_local_decl-LocalPacked_example =
    parse_local_decl-LocalPacked same tile_tokens no_local (omega arith, (omega arith, tt))
      (omega arith) (omega arith)
