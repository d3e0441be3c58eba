-- ===== src/Base/Assoc.antt =====
-- Maps as association lists: the first pair of a key counts. The order of an `unordered_map` is
-- not observed by the code that uses these.
use Prim.Native.String.{String}
use rouge_v.Base.Tests.{◌==◌, if◌then◌else◌}
use rouge_v.Base.Text.{same_name, same_name_iff}
use Prim.Native.Nat.{ℕ}
use mathlib.Core.Path.{◌≡◌, refl}
use mathlib.Core.Bool.{Bool, true, false}
use mathlib.Core.Option.{Option, none, some}
use mathlib.Core.List.{List, [], ◌∷◌}
use native.Mathlib.Omega.{arith}

module _ {V : Type 0} where
  -- The value of the first pair whose key is `sought`.
  unfoldable pub lookup : ℕ → List (ℕ × V) → Option V
  lookup sought [] = none
  lookup sought ((key, value) ∷ rest) = if key == sought then some value else lookup sought rest

  -- Assignment through the key: an entry that exists is replaced in its place.
  unfoldable pub insert : ℕ → V → List (ℕ × V) → List (ℕ × V)
  insert target new [] = (target, new) ∷ []
  insert target new ((key, value) ∷ rest) =
      if key == target then (target, new) ∷ rest else (key, value) ∷ insert target new rest

  unfoldable pub erase : ℕ → List (ℕ × V) → List (ℕ × V)
  erase target [] = []
  erase target ((key, value) ∷ rest) =
      if key == target then erase target rest else (key, value) ∷ erase target rest

  pub lookup-insert :
      (target sought : ℕ) (new : V) (entries : List (ℕ × V))
      → lookup sought (insert target new entries)
        ≡ (if target == sought then some new else lookup sought entries)
  unfolding lookup insert
  lookup-insert target sought new [] = refl
  lookup-insert target sought new ((key, value) ∷ rest) =
      ground (arith, lookup-insert target sought new rest)

  pub lookup-erase :
      (target sought : ℕ) (entries : List (ℕ × V))
      → lookup sought (erase target entries)
        ≡ (if target == sought then none else lookup sought entries)
  unfolding lookup erase
  lookup-erase target sought [] = ground arith
  lookup-erase target sought ((key, value) ∷ rest) = ground (arith, lookup-erase target sought rest)

  unfoldable pub lookup_name : String → List (String × V) → Option V
  lookup_name k [] = none
  lookup_name k ((j, v) ∷ m) = if same_name j k then some v else lookup_name k m

  unfoldable pub assign_name : String → V → List (String × V) → List (String × V)
  assign_name k v [] = (k, v) ∷ []
  assign_name k v ((j, w) ∷ m) = if same_name j k then (k, v) ∷ m else (j, w) ∷ assign_name k v m

  pub lookup_name-assign_name :
      (k j : String) (v : V) (m : List (String × V))
      → lookup_name j (assign_name k v m) ≡ (if same_name k j then some v else lookup_name j m)
  unfolding lookup_name assign_name
  lookup_name-assign_name k j v [] = refl
  lookup_name-assign_name k j v ((i, w) ∷ m) = ground (
    arith,
    same_name_iff k j,
    same_name_iff i k,
    same_name_iff i j,
    lookup_name-assign_name k j v m,
  )

-- Sets of numbers.
unfoldable pub member : ℕ → List ℕ → Bool
member k [] = false
member k (j ∷ m) = if j == k then true else member k m

unfoldable pub remove : ℕ → List ℕ → List ℕ
remove k [] = []
remove k (j ∷ m) = if j == k then remove k m else j ∷ remove k m

pub member-remove :
    (k j : ℕ) (m : List ℕ) → member j (remove k m) ≡ (if k == j then false else member j m)
unfolding member remove
member-remove k j [] = ground arith
member-remove k j (i ∷ m) = ground (arith, member-remove k j m)
