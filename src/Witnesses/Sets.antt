-- ===== src/Witnesses/Sets.antt =====
-- The signal sets on concrete sets.
use pglite4j.Prelude.{ℕ, ◌<◌, ◌≡◌, ◌&&◌, ◌||◌, ltb, ◌==◌, pos, arith}
use pglite4j.Signals.Sets.{done, sigaddset, member}
use pglite4j.Signals.Sets.Laws.{sigaddset-member}

-- Signal 12 is in range and is lost.
sigaddset-member_example :
    (s : ℕ) × (sigaddset 32 6 (pos 12) ≡ done s)
    × (s < 256)
    × ((k : ℕ) → member s k ≡ (ltb 12 8 && (k == 12) || member 6 k))
sigaddset-member_example = sigaddset-member 32 6 12 (omega arith) (omega arith) (omega arith)
