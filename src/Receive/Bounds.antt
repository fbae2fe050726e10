-- ===== src/Receive/Bounds.antt =====
-- The reads stay inside the buffer.
use pglite4j.Prelude.{ℕ, ◌≤◌, ◌≡◌, length}
use pglite4j.Receive.{Buffer}

-- The buffer has `size` bytes, and no more of them count as received.
abbrev pub IsWithin : (size : ℕ) → Buffer → Type 0
IsWithin size b = (length b.bytes ≡ size) × (b.len ≤ size)
