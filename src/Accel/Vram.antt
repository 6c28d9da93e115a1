-- ===== src/Accel/Vram.antt =====
-- kexts/VMsvga2/AC/VMsvga2Accel.cpp: video memory, which the accelerator gives out by its allocator.
use docker_macos.Base.{ℕ, true, Option, none, some}
use docker_macos.Allocator.{Pool, Outcome, stored, failed, malloc}
use docker_macos.Allocator.Merge.{realloc, free}

-- The pointer, 0 if there is none, and the pool as the method leaves it.
abbrev pub pointer : Option (Pool × Outcome) → Option (ℕ × Option Pool)
pointer none = none
pointer (some (pool, stored p)) = some (p, some pool)
pointer (some (pool, failed rc)) = some (0, some pool)

-- `none` is an accelerator without allocator; a result of `none` does not end.
unfoldable pub vram_malloc : (bytes : ℕ) → Option Pool → Option (ℕ × Option Pool)
vram_malloc bytes none = some (0, none)
vram_malloc bytes (some pool) = pointer (malloc bytes true pool)

unfoldable pub vram_realloc : (ptr bytes : ℕ) → Option Pool → Option (ℕ × Option Pool)
vram_realloc ptr bytes none = some (0, none)
vram_realloc ptr bytes (some pool) = pointer (realloc ptr bytes pool)

unfoldable pub vram_free : (ptr : ℕ) → Option Pool → Option Pool
vram_free ptr none = none
vram_free ptr (some pool) = some (free ptr pool).0
