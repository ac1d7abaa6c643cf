-- ===== src/KernelHeap/Free.antt =====
-- `kfree` (src/lib/kmalloc.c).
use pell_os.Base.{
  ℕ, zero, suc, ◌+◌, ◌-◌, ◌%◌, ◌^◌, Bool, true, ◌&&◌, ◌||◌, ◌==◌, leb, ltb, if◌then◌else◌,
}
use pell_os.Base.Memory.{Memory, read64}
use pell_os.KernelHeap.{
  KernelHeap, Call, returns, fault, out_of_fuel, start_of_heap, end_of_heap, malloc_header_size,
  get_prev, get_next, get_size, set_prev, set_next, set_size, get_header, set_header, names_memory,
}

-- The search for the first free block behind `ptr`, from the block at `a` on: the block at which it
-- stops, and whether that block is behind `ptr`.
unfoldable pub find_behind : (fuel ptr a : ℕ) → Memory → Call (ℕ × Bool)
find_behind zero ptr a mem = out_of_fuel
find_behind (suc fuel) ptr a mem =
    let next = get_next mem a in
    let rest = find_behind fuel ptr next mem in
    if names_memory a
    then (if next == end_of_heap
        then returns (a, ltb ptr a)
        else if ltb ptr a
        then returns (a, true)
        else rest)
    else fault

-- An only block is taken without a look at where it is.
unfoldable pub search_behind : (fuel ptr : ℕ) → KernelHeap → Call (ℕ × Bool)
unfolding find_behind
search_behind fuel ptr h =
    if get_next h.memory h.first_free == end_of_heap
      && get_prev h.memory h.first_free == start_of_heap
    then returns (h.first_free, true)
    else find_behind fuel ptr h.first_free h.memory

-- No free block is behind `ptr`, and `a` is the last one.
unfoldable pub free_behind_last : (header size a : ℕ) → KernelHeap → KernelHeap
free_behind_last header size a h =
    if get_next h.memory a == end_of_heap && leb a header
    then (if ltb a header
        then record h {
          memory = set_size header size (set_prev header a (set_next a header h.memory));
        }
        else record h { memory = set_size a ((get_size h.memory a + size) % 2 ^ 64) h.memory })
    else h

-- `a` is the first free block.
unfoldable pub free_before_first : (header size a : ℕ) → KernelHeap → KernelHeap
free_before_first header size a h =
    if (header + size) % 2 ^ 64 == a
    then (let tmp = get_header h.memory a in
        let moved = (a + 2 ^ 64 - size) % 2 ^ 64 in
        let mem₁ = set_header moved (record tmp { size = (tmp.size + size) % 2 ^ 64 }) h.memory in
        record {
          first_free = moved;
          memory =
              if get_next mem₁ moved == end_of_heap
              then mem₁
              else set_prev (get_next mem₁ moved) moved mem₁;
        })
    else record {
      first_free = header;
      memory =
          set_prev a header
            (set_size header size (set_next header a (set_prev header start_of_heap h.memory)));
    }

-- `a` is a free block with another before it. The two tests for neighbours are off by one.
unfoldable pub free_between : (header size a : ℕ) → KernelHeap → KernelHeap
free_between header size a h =
    let prev = get_prev h.memory a in
    let after_prev = (prev + get_size h.memory prev + 1) % 2 ^ 64 == header in
    let before_block = (header + size + 1) % 2 ^ 64 == a in
    let tmp = get_header h.memory a in
    if after_prev && before_block
    then (let mem₁ = set_next prev tmp.next h.memory in
        let mem₂ = set_size prev ((get_size mem₁ prev + size + get_size mem₁ a) % 2 ^ 64) mem₁ in
        record h {
          memory =
              if get_next mem₂ a == end_of_heap then mem₂ else set_prev (get_next mem₂ a) prev mem₂;
        })
    else if after_prev
    then record h { memory = set_size prev ((get_size h.memory prev + size) % 2 ^ 64) h.memory }
    else if before_block
    then (let moved = (a + 2 ^ 64 - size) % 2 ^ 64 in
        let mem₁ = set_header moved (record tmp { size = (tmp.size + size) % 2 ^ 64 }) h.memory in
        record h { memory = set_next (get_prev mem₁ moved) moved mem₁ })
    else record h {
      memory = set_next prev header (
          set_prev header prev
            (set_prev a header (set_next header a (set_size header size h.memory))));
    }

-- What `kfree` does with the result of the search.
unfoldable pub free_at : (header size : ℕ) → KernelHeap → ℕ × Bool → KernelHeap
unfolding free_behind_last free_before_first free_between
free_at header size h (a, found) =
    if found
    then (if get_prev h.memory a == start_of_heap
        then free_before_first header size a h
        else free_between header size a h)
    else free_behind_last header size a h

unfoldable pub kfree : (fuel ptr : ℕ) → KernelHeap → Call KernelHeap
unfolding search_behind free_at
kfree fuel ptr h =
    let header = (ptr + 2 ^ 64 - malloc_header_size) % 2 ^ 64 in
    let size = (read64 h.memory header + malloc_header_size) % 2 ^ 64 in
    if ptr == 0 || h.first_free == 0 then returns h else elim (search_behind fuel ptr h) [
      | returns r ↦ returns (free_at header size h r)
      | fault ↦ fault
      | out_of_fuel ↦ out_of_fuel
    ]
