-- ===== src/Buffers/Laws.antt =====
-- What is left in the buffer pool.
use pglite4j.Prelude.{
  length, replicate, ℕ, zero, suc, ◌+◌, ◌≡◌, refl, ap, sym, ◌∙◌, ◌&&◌, ltb, leb, if◌then◌else◌,
  update, ◌==◌, ==_iff, arith, Bool-cases, inl, inr,
}
use pglite4j.Buffers.{Descriptor, Pool, wiped, invalidate_from, pgl_invalidate_buffers}

invalidate_from_lem :
    (rounds i : ℕ) (d : ℕ → Descriptor) (j : ℕ)
    → invalidate_from rounds i d j ≡ (if leb i j && ltb j (i + rounds) then wiped (d j) else d j)
unfolding invalidate_from
invalidate_from_lem zero i d j = ground arith
invalidate_from_lem (suc rounds) i d j =
    invalidate_from_lem rounds (i + 1) (update d i (wiped (d i))) j ∙ elim (Bool-cases (j == i)) [
      | inl same ↦
          let here : d i ≡ d j = ap d (sym ((==_iff j i).0 same)) in
          ground (arith, same, ap wiped here)
      | inr other ↦ ground (arith, other)
    ]

-- Each descriptor of the pool, and no other one, has a state of 0 and a tag of as many zeros as the
-- tag had bytes, whatever it had before, and the caches of the backend are dropped.
pub pgl_invalidate_buffers_lem :
    {C : Type 0} (n_buffers : ℕ) (invalidate_system_caches : C → C) (s : Pool C) (i : ℕ)
    → ((pgl_invalidate_buffers n_buffers invalidate_system_caches s).descriptors i ≡ (
        if ltb i n_buffers
        then record { state = 0; tag = replicate (length ((s.descriptors i).tag)) 0 }
        else s.descriptors i))
      × ((pgl_invalidate_buffers n_buffers invalidate_system_caches s).system_caches
          ≡ invalidate_system_caches s.system_caches)
unfolding pgl_invalidate_buffers
pgl_invalidate_buffers_lem n_buffers drop_caches s i =
    (invalidate_from_lem n_buffers 0 s.descriptors i ∙ ground arith, refl)
