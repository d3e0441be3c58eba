-- ===== src/Driver/Modules/Globals.antt =====
-- The keys of the backing storage, and what `cuModuleGetGlobal` and `cuModuleUnload` do to it.
use rouge_v.Base.{
  ℕ, zero, suc, ◌+◌, ◌*◌, ◌%◌, ◌^◌, ◌≤◌, ◌<◌, ◌≡◌, ◌≢◌, refl, arith, List, none, some, ◌==◌, ap,
  sym, ◌∙◌, inl, inr, Bool-cases,
}
use rouge_v.Base.Assoc.{lookup, erase, lookup-insert, lookup-erase}
use rouge_v.Driver.{Context, Storage, Host, global_storage_key}
use rouge_v.Driver.Modules.{erase_globals, size_of, base_of, back_global}

-- The factor of the key is odd: `back` undoes it modulo 2 ^ 64.
abbrev back : ℕ
back = 0xf1de83e19937733d

undo_golden : (i : ℕ) → i < 2 ^ 64 → i * 0x9E3779B97F4A7C15 % 2 ^ 64 * back % 2 ^ 64 ≡ i
undo_golden i h = omega arith

same_key :
    (m i j : ℕ)
    → m < 2 ^ 64
    → i < 2 ^ 64
    → j < 2 ^ 64
    → global_storage_key m i ≡ global_storage_key m j
    → i ≡ j
unfolding global_storage_key
same_key m i j hm hi hj e =
    let x = i * 0x9E3779B97F4A7C15 % 2 ^ 64 in
    let y = j * 0x9E3779B97F4A7C15 % 2 ^ 64 in
    let same : x ≡ y = omega arith in
    sym (undo_golden i hi) ∙ ap (λ t. t * back % 2 ^ 64) same ∙ undo_golden j hj

-- Two globals of one module have different keys, for any address of the module.
pub global_storage_key_ne :
    (m i j : ℕ)
    → m < 2 ^ 64
    → i < 2 ^ 64
    → j < 2 ^ 64
    → i ≢ j
    → global_storage_key m i ≢ global_storage_key m j
global_storage_key_ne m i j hm hi hj apart e = apart (same_key m i j hm hi hj e)

pub lookup-erase_globals :
    (key i left j : ℕ) (s : List (ℕ × Storage))
    → i ≤ j
    → j < i + left
    → lookup (global_storage_key key j) (erase_globals key i left s) ≡ none
unfolding erase_globals
lookup-erase_globals key i zero j s low high = absurd (omega arith)
lookup-erase_globals key i (suc left) j s low high = elim (Bool-cases (i == j)) [
  | inl here ↦
      let same : i ≡ j = ground arith in
      let gone : lookup (global_storage_key key j) (erase (global_storage_key key i) s) ≡ none =
        ground (
          arith,
          lookup-erase (global_storage_key key i) (global_storage_key key j) s,
          ap (global_storage_key key) same,
        ) in
      stays_gone (i + 1) left (erase (global_storage_key key i) s) gone
  | inr other ↦
      lookup-erase_globals key (i + 1) left j (erase (global_storage_key key i) s) (ground arith)
        (omega arith)
]
  where
    stays_gone :
        (k n : ℕ) (t : List (ℕ × Storage))
        → lookup (global_storage_key key j) t ≡ none
        → lookup (global_storage_key key j) (erase_globals key k n t) ≡ none
    stays_gone k zero t gone = gone
    stays_gone k (suc n) t gone =
        stays_gone (k + 1) n (erase (global_storage_key key k) t)
          (ground (arith, lookup-erase (global_storage_key key k) (global_storage_key key j) t))

pub lookup-erase_globals_other :
    (key i left q : ℕ) (s : List (ℕ × Storage))
    → ((j : ℕ) → j < i + left → global_storage_key key j ≢ q)
    → lookup q (erase_globals key i left s) ≡ lookup q s
unfolding erase_globals
lookup-erase_globals_other key i zero q s apart = refl
lookup-erase_globals_other key i (suc left) q s apart =
    lookup-erase_globals_other key (i + 1) left q (erase (global_storage_key key i) s)
      (λ j h. apart j (omega arith))
    ∙ ground (arith, lookup-erase (global_storage_key key i) q s, apart i)

-- Behind `back_global` the key has a vector of the size, and it stays the same one.
pub lookup-back_global :
    (host : Host) (key n : ℕ) (c : Context)
    → (b : ℕ) × (lookup key (back_global host key n c).global_storage
        ≡ some (record { base = b; size = n }))
unfolding back_global
lookup-back_global host key n c =
    let found = lookup key c.global_storage in
    elim (Bool-cases (size_of found == n)) [
      | inl same ↦ (
        base_of found,
        rw same (
            ground (
              arith,
              lookup-insert key key (record { base = base_of found; size = n }) c.global_storage,
            )),
      )
      | inr other ↦ (
        host.new,
        rw other (
            ground (
              arith,
              lookup-insert key key (record { base = host.new; size = n }) c.global_storage,
            )),
      )
    ]

pub back_global-found :
    (host : Host) (key n b : ℕ) (c : Context)
    → lookup key c.global_storage ≡ some (record { base = b; size = n })
    → (lookup key (back_global host key n c).global_storage ≡ some (record { base = b; size = n }))
      × ((back_global host key n c).memory ≡ c.memory)
unfolding back_global
back_global-found host key n b c found = (
  ground (arith, found, lookup-insert key key (record { base = b; size = n }) c.global_storage),
  ground (arith, found),
)
