-- ===== src/Buffers.antt =====
-- `pgl_invalidate_buffers` of wasm-build/patches/pglite-wasm/pgl_mains.c.diff, which the constructor of
-- PGLite.java calls when it has restored an archive.
pub mod Laws
use pglite4j.Prelude.{ℕ, zero, suc, ◌+◌, List, length, replicate, update}

-- A BufferDesc: its state, and the bytes of its tag. A state of 0 says that it has no page.
pub record Descriptor : Type 0 where
  pub state : ℕ
  pub tag : List ℕ

-- The shared buffer pool, and the caches of the backend.
pub record Pool (C : Type 0) : Type 0 where
  pub descriptors : ℕ → Descriptor
  pub system_caches : C

-- `pg_atomic_write_u32`, and `memset` of the tag.
abbrev pub wiped : Descriptor → Descriptor
wiped d = record { state = 0; tag = replicate (length d.tag) 0 }

-- The loop from `i` on.
unfoldable pub invalidate_from : (rounds i : ℕ) → (ℕ → Descriptor) → ℕ → Descriptor
invalidate_from zero i d = d
invalidate_from (suc rounds) i d = invalidate_from rounds (i + 1) (update d i (wiped (d i)))

-- `InvalidateSystemCaches` belongs to PostgreSQL.
unfoldable pub pgl_invalidate_buffers :
    {C : Type 0} (n_buffers : ℕ) (invalidate_system_caches : C → C) → Pool C → Pool C
unfolding invalidate_from
pgl_invalidate_buffers n_buffers invalidate_system_caches s = record {
  descriptors = invalidate_from n_buffers 0 s.descriptors;
  system_caches = invalidate_system_caches s.system_caches;
}
