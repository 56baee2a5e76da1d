-- ===== src/Hooks.antt =====
-- posix_hooks.c: the functions that take the place of the C library's, and the bump allocator that
-- serves them until the allocator is ready. `none` is a trap. The constructor that makes the
-- allocator ready sets `ready` behind `lz_system_init`.
pub mod Base
use lzmalloc.Base.{
  ℕ, ◌+◌, ◌-◌, ◌*◌, ◌/◌, Option, none, some, not, ◌==◌, ◌||◌, ◌&&◌, leb, ltb, if◌then◌else◌, Bool,
  update,
}
use lzmalloc.Malloc as Lz
use lzmalloc.Malloc.{Errno, ok}
use lzmalloc.Thread.{Process}
use lzmalloc.Word.{word_mod, add64, sub64, align_up}

abbrev pub base_heap_size : ℕ
base_heap_size = 4194304

abbrev pub abi_alignment : ℕ
abi_alignment = 16

-- `exact_size` maps the addresses of `lz_base_header_t` to their fields
pub record Hooks : Type 0 where
  pub base_heap : ℕ
  pub base_offset : ℕ
  pub exact_size : ℕ → ℕ
  pub ready : ℕ
  pub process : Process

unfoldable pub is_base_ptr : ℕ → Hooks → Bool
is_base_ptr ptr s = leb s.base_heap ptr && ltb ptr (add64 s.base_heap base_heap_size)

-- `lz_base_malloc_aligned`, its exchange of the offset taken as one step
unfoldable pub base_malloc_aligned : ℕ → ℕ → Hooks → Option (ℕ × Hooks)
base_malloc_aligned alignment_asked size_asked s =
    let alignment = if ltb alignment_asked abi_alignment then abi_alignment else alignment_asked in
    let size = if size_asked == 0 then abi_alignment else size_asked in
    let base_addr = add64 s.base_heap s.base_offset in
    let payload_addr = align_up (add64 base_addr 16) alignment in
    let aligned_offset = sub64 (sub64 payload_addr 16) s.base_heap in
    let total_size = align_up size abi_alignment in
    let stop = add64 (add64 aligned_offset 16) total_size in
    let header = add64 s.base_heap aligned_offset in
    if ltb base_heap_size stop
    then none
    else some (
      add64 header 16,
      record s { base_offset = stop; exact_size = update s.exact_size header size },
    )

-- `lz_base_malloc`
unfoldable pub base_malloc : ℕ → Hooks → Option (ℕ × Hooks)
base_malloc size s = base_malloc_aligned abi_alignment size s

-- a call of the allocator behind the hooks
abbrev pub routed {ℓ} : {A : Type ℓ} → Hooks → Option (A × Process) → Option (A × Hooks)
routed s none = none
routed s (some (a, p)) = some (a, record s { process = p })

-- `lz_malloc_routed`
unfoldable pub malloc_routed : ℕ → ℕ → Hooks → Option (ℕ × Hooks)
malloc_routed fuel size s =
    if s.ready == 1 then routed s (Lz.malloc fuel size s.process) else base_malloc size s

-- `lz_free_routed`
unfoldable pub free_routed : ℕ → Hooks → Option Hooks
free_routed ptr s =
    if ptr == 0 || is_base_ptr ptr s
    then some s
    else if s.ready == 1
    then elim (Lz.free ptr s.process) [ none ↦ none | some p ↦ some (record s { process = p }) ]
    else some s

-- `malloc`
abbrev pub hook_malloc : ℕ → ℕ → Hooks → Option (ℕ × Hooks)
hook_malloc fuel size s = malloc_routed fuel size s

-- `free`
abbrev pub hook_free : ℕ → Hooks → Option Hooks
hook_free ptr s = free_routed ptr s

-- `calloc`: the overflow test of the compiler compares with the product
unfoldable pub hook_calloc : ℕ → ℕ → ℕ → Hooks → Option (ℕ × Hooks)
hook_calloc fuel num size s =
    if leb word_mod (num * size)
    then some (0, s)
    else if s.ready == 1
    then routed s (Lz.calloc fuel num size s.process)
    else base_malloc (num * size) s

-- `realloc`
unfoldable pub hook_realloc : ℕ → ℕ → ℕ → Hooks → Option (ℕ × Hooks)
hook_realloc fuel ptr new_size s =
    if ptr == 0
    then hook_malloc fuel new_size s
    else if new_size == 0
    then elim (hook_free ptr s) [ none ↦ none | some s' ↦ some (0, s') ]
    else if is_base_ptr ptr s
    then if leb new_size (s.exact_size (sub64 ptr 16))
      then some (ptr, s)
      else hook_malloc fuel new_size s
    else if s.ready == 0
    then some (0, s)
    else routed s (Lz.realloc fuel ptr new_size s.process)

-- `memalign`
unfoldable pub hook_memalign : ℕ → ℕ → ℕ → Hooks → Option (ℕ × Hooks)
hook_memalign fuel alignment size s =
    if s.ready == 1
    then routed s (Lz.memalign fuel alignment size s.process)
    else base_malloc_aligned alignment size s

-- `aligned_alloc`
unfoldable pub hook_aligned_alloc : ℕ → ℕ → ℕ → Hooks → Option (ℕ × Hooks)
hook_aligned_alloc fuel alignment size s =
    if s.ready == 1
    then routed s (Lz.aligned_alloc fuel alignment size s.process)
    else base_malloc_aligned alignment size s

-- `malloc_usable_size`
unfoldable pub hook_usable_size : ℕ → Hooks → ℕ
hook_usable_size ptr s =
    if ptr == 0
    then 0
    else if is_base_ptr ptr s
    then s.exact_size (sub64 ptr 16)
    else if s.ready == 1
    then Lz.malloc_usable_size ptr s.process.world
    else 0

-- `reallocarray`
unfoldable pub hook_reallocarray : ℕ → ℕ → ℕ → ℕ → Hooks → Option (ℕ × Hooks)
hook_reallocarray fuel ptr nmemb size s =
    if leb word_mod (nmemb * size) then some (0, s) else hook_realloc fuel ptr (nmemb * size) s

-- `posix_memalign`: what is stored at `memptr` is the second component
unfoldable pub hook_posix_memalign : ℕ → ℕ → ℕ → ℕ → Hooks → Option (Errno × Option ℕ × Hooks)
hook_posix_memalign fuel memptr alignment size s =
    if s.ready == 1
    then elim (Lz.posix_memalign fuel memptr alignment size s.process) [
      | none ↦ none
      | some r ↦ some (r.0, r.1, record s { process = r.2 })
    ]
    else elim (base_malloc_aligned alignment size s) [
      | none ↦ none
      | some r ↦ some (ok, some r.0, r.1)
    ]

-- `valloc`
unfoldable pub hook_valloc : ℕ → Option ℕ → ℕ → Hooks → Option (ℕ × Hooks)
hook_valloc fuel sysconf size s =
    if s.ready == 1
    then routed s (Lz.valloc fuel sysconf size s.process)
    else base_malloc_aligned (Lz.page_size_or sysconf) size s

-- `pvalloc`
abbrev pub hook_pvalloc : ℕ → Option ℕ → ℕ → Hooks → Option (ℕ × Hooks)
hook_pvalloc fuel sysconf size s = hook_valloc fuel sysconf size s

-- `__libc_malloc`
abbrev pub libc_malloc : ℕ → ℕ → Hooks → Option (ℕ × Hooks)
libc_malloc fuel size s = hook_malloc fuel size s

-- `__libc_free`
abbrev pub libc_free : ℕ → Hooks → Option Hooks
libc_free ptr s = hook_free ptr s

-- `__libc_realloc`
abbrev pub libc_realloc : ℕ → ℕ → ℕ → Hooks → Option (ℕ × Hooks)
libc_realloc fuel ptr size s = hook_realloc fuel ptr size s

-- `__libc_calloc`
abbrev pub libc_calloc : ℕ → ℕ → ℕ → Hooks → Option (ℕ × Hooks)
libc_calloc fuel n size s = hook_calloc fuel n size s

-- `__libc_cfree`
abbrev pub libc_cfree : ℕ → Hooks → Option Hooks
libc_cfree ptr s = hook_free ptr s

-- `__libc_memalign`
abbrev pub libc_memalign : ℕ → ℕ → ℕ → Hooks → Option (ℕ × Hooks)
libc_memalign fuel align size s = hook_memalign fuel align size s

-- `cfree`
abbrev pub cfree : ℕ → Hooks → Option Hooks
cfree ptr s = hook_free ptr s
