-- ===== src/Driver/Alloc.antt =====
-- Allocation and copies.
use rouge_v.Base.{ℕ, Bool, not, ◌||◌, ◌&&◌, List, [], ◌∷◌, ◌++◌, none, some, ◌==◌, if◌then◌else◌}
use rouge_v.Base.Assoc.{member, remove}
use rouge_v.Base.Bytes.{write_bytes, read_bytes}
use rouge_v.Driver.{invalid_value, out_of_memory, Context, Reply, fail, ok, Host}

abbrev pub at_least_one : ℕ → ℕ
at_least_one n = if n == 0 then 1 else n

-- `unordered_set::insert`.
abbrev pub add_to_set : ℕ → List ℕ → List ℕ
add_to_set p s = if member p s then s else p ∷ s

unfoldable pub cu_mem_alloc : Host → Bool → ℕ → Context → Reply
cu_mem_alloc host dptr bytesize c =
    if not dptr then fail invalid_value c else elim (host.malloc (at_least_one bytesize)) [
      | none ↦ fail out_of_memory c
      | some p ↦ ok (p ∷ []) (record c { allocations = add_to_set p c.allocations })
    ]

unfoldable pub cu_mem_free : ℕ → Context → Reply
cu_mem_free dptr c =
    if not (member dptr c.allocations)
    then fail invalid_value c
    else ok [] (record c { allocations = remove dptr c.allocations })

-- `src` is the bytes of the host buffer, and whether its pointer is there.
unfoldable pub cu_memcpy_htod : ℕ → Bool → List ℕ → Context → Reply
cu_memcpy_htod dst src bytes c =
    if not src || dst == 0
    then fail invalid_value c
    else ok [] (record c { memory = write_bytes c.memory dst bytes })

-- The bytes that the host buffer gets are the answers.
unfoldable pub cu_memcpy_dtoh : Bool → ℕ → ℕ → Context → Reply
cu_memcpy_dtoh dst src count c =
    if not dst || src == 0 then fail invalid_value c else ok (read_bytes c.memory src count) c

-- `memmove`: all is read before it is written.
unfoldable pub cu_memcpy_dtod : ℕ → ℕ → ℕ → Context → Reply
cu_memcpy_dtod dst src count c =
    if dst == 0 || src == 0
    then fail invalid_value c
    else ok [] (record c { memory = write_bytes c.memory dst (read_bytes c.memory src count) })

unfoldable pub cu_mem_get_info : Host → Bool → Bool → Context → Reply
cu_mem_get_info host free total c =
    if not free && not total
    then fail invalid_value c
    else ok
        ((if free then host.phys_mem ∷ [] else []) ++ (if total then host.phys_mem ∷ [] else [])) c

-- Host memory is not entered in a table.
unfoldable pub cu_mem_host_alloc : Host → Bool → ℕ → Context → Reply
cu_mem_host_alloc host pp bytesize c =
    if not pp then fail invalid_value c else elim (host.malloc (at_least_one bytesize)) [
      | none ↦ fail out_of_memory c
      | some p ↦ ok (p ∷ []) c
    ]

unfoldable pub cu_mem_free_host : ℕ → Context → Reply
cu_mem_free_host p c = ok [] c

unfoldable pub cu_mem_host_get_device_pointer : Bool → ℕ → Context → Reply
cu_mem_host_get_device_pointer pdptr p c =
    if not pdptr || p == 0 then fail invalid_value c else ok (p ∷ []) c
