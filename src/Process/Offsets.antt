-- ===== src/Process/Offsets.antt =====
-- The offsets that `sdk_fdtell` can tell.
use pglite4j.Prelude.{
  ℕ, ◌-◌, ◌^◌, ◌≤◌, ◌<◌, ◌≡◌, ◌↔◌, refl, ap, ◌∙◌, sym, Option, some, pos, negsuc, false, arith,
}
use pglite4j.Process.{to_long, sdk_fdtell}

to_long-exact : (n : ℕ) → n < 2 ^ 31 → to_long n ≡ pos n
unfolding to_long
to_long-exact n h = ground arith

to_long_sound : (n : ℕ) → to_long n ≡ pos n → n < 2 ^ 31
unfolding to_long
to_long_sound n e = ground (arith, e)

-- A position in the upper half of 32 bits comes out negative.
to_long-negative : (n : ℕ) → 2 ^ 31 ≤ n → n < 2 ^ 32 → to_long n ≡ negsuc (2 ^ 32 - 1 - n)
unfolding to_long
to_long-negative n lo hi = ground arith

told :
    (fd_seek : ℕ → Option ℕ) (fd n : ℕ)
    → fd_seek fd ≡ some n
    → sdk_fdtell fd_seek fd ≡ (to_long n, false)
unfolding sdk_fdtell
told fd_seek fd n e = rw (e, sdk_fdtell) refl

-- `sdk_fdtell` returns the position that the seek gives exactly if it is below 2^31.
pub sdk_fdtell_iff :
    (fd_seek : ℕ → Option ℕ) (fd n : ℕ)
    → fd_seek fd ≡ some n
    → (sdk_fdtell fd_seek fd ≡ (pos n, false)) ↔ (n < 2 ^ 31)
sdk_fdtell_iff fd_seek fd n e = (
  λ q. to_long_sound n (ap (λ r. r.0) (sym (told fd_seek fd n e) ∙ q)),
  λ h. told fd_seek fd n e ∙ ap (λ z. (z, false)) (to_long-exact n h),
)

-- A position from 2^31 to 2^32 - 1 comes out as itself less 2^32, a negative number, and `errno` is not
-- set.
sdk_fdtell_negative :
    (fd_seek : ℕ → Option ℕ) (fd n : ℕ)
    → fd_seek fd ≡ some n
    → 2 ^ 31 ≤ n
    → n < 2 ^ 32
    → sdk_fdtell fd_seek fd ≡ (negsuc (2 ^ 32 - 1 - n), false)
sdk_fdtell_negative fd_seek fd n e lo hi =
    told fd_seek fd n e ∙ ap (λ z. (z, false)) (to_long-negative n lo hi)
