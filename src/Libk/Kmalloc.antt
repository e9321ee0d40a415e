-- ===== src/Libk/Kmalloc.antt =====
-- kernel/libk/kmalloc.c: the first-fit chunk allocator of the kernel heap.
-- `memory[i]` is the length in chunks of the block that starts at chunk `i`, and 0 elsewhere.
-- The result `none` is a call of `panic`, which does not return.
pub mod Layout
pub mod Refine
pub mod Blocks
mod Tests
use pi_os.Common.{
  ℕ, zero, suc, ◌+◌, ◌-◌, ◌*◌, ◌/◌, Bool, ◌||◌, Option, none, some, List, [], ◌∷◌, ltb, ◌==◌,
  if◌then◌else◌, get_or, set, replicate,
}
use pi_os.Common.Word.{add16, mul16}

abbrev pub kernel_heap_start : ℕ
kernel_heap_start = 0xA000

abbrev pub kernel_heap_end : ℕ
kernel_heap_end = 0xE3FF

abbrev pub chunk_size : ℕ
chunk_size = 8

abbrev pub heap_arr_size : ℕ
heap_arr_size = (kernel_heap_end - kernel_heap_start) / chunk_size

pub init_malloc : List ℕ
init_malloc = replicate heap_arr_size 0

abbrev pub size_in_chunks : ℕ → ℕ
size_in_chunks size = add16 size chunk_size / chunk_size

-- The loop of `kmalloc`: the chunk at which it writes `memory`. `current_chunk` grows in each round.
find_chunks : ℕ → List ℕ → (need free_chunks current_chunk : ℕ) → Option ℕ
find_chunks zero memory need free_chunks current_chunk = none
find_chunks (suc fuel) memory need free_chunks current_chunk =
    let skip = find_chunks fuel memory need 0 (current_chunk + get_or memory current_chunk 0) in
    let next = find_chunks fuel memory need (free_chunks + 1) (current_chunk + 1) in
    if ltb current_chunk heap_arr_size
    then if get_or memory current_chunk 0 == 0
      then if free_chunks + 1 == need then some (current_chunk + 1 - need) else next
      else skip
    else none

abbrev pub chunk_address : ℕ → ℕ
chunk_address i = kernel_heap_start + i * chunk_size

allocate : List ℕ → ℕ → Option ℕ → Option (ℕ × List ℕ)
allocate memory need none = none
allocate memory need (some i) = some (chunk_address i, set memory i need)

pub kmalloc : List ℕ → ℕ → Option (ℕ × List ℕ)
kmalloc memory size =
    allocate memory (size_in_chunks size)
      (find_chunks (heap_arr_size + 1) memory (size_in_chunks size) 0 0)

count_free : ℕ → List ℕ → (free current_chunk : ℕ) → ℕ
count_free zero memory free current_chunk = free
count_free (suc fuel) memory free current_chunk =
    let skip = count_free fuel memory free (current_chunk + get_or memory current_chunk 0) in
    let next = count_free fuel memory (add16 free chunk_size) (current_chunk + 1) in
    if ltb current_chunk heap_arr_size
    then if get_or memory current_chunk 0 == 0 then next else skip
    else free

pub mem_free_size : List ℕ → ℕ
mem_free_size memory = mul16 (count_free (heap_arr_size + 1) memory 0 0) 2

pub kfree : List ℕ → ℕ → Option (List ℕ)
kfree memory ptr =
    if ltb ptr kernel_heap_start || ltb kernel_heap_end ptr
    then none
    else some (set memory ((ptr - kernel_heap_start) / chunk_size) 0)
