-- ===== src/Signals/Sets.antt =====
-- Signal sets: `sigemptyset`, `sigfillset`, `sigaddset`, `sigdelset` and `sigismember` of
-- wasm-build/wasm-build/sdk_port-wasi/sdk_port-wasi.c. `sigset_t` is an `unsigned char`
-- (wasm-build/wasm-build/sdk_port.h), so a set has room for the signals 0 to 7. The number of
-- signals, NSIG, comes from the system's <signal.h> and is a parameter. SIGABRT_COMPAT is not
-- defined on this target.
pub mod Laws
use pglite4j.Prelude.{ℕ, ◌+◌, ◌-◌, ◌*◌, ◌%◌, ◌^◌, ◌≤◌, ◌<◌, min, max, bit_and, bit_or}
use pglite4j.Prelude.{◌≡◌, ◌∙◌, Bool, false, ◌&&◌, ◌||◌, arith, ltb, ◌==◌, if◌then◌else◌}
use pglite4j.Prelude.{ℤ, pos, negsuc, ap, not}
use native.Mathlib.Nat.{pow-le-pow_right}
use pglite4j.Prelude.Bits.{
  bit, bit-le-one, bit-bit_or, bit-bit_and, bit-pow, bit-byte, bit-byte_high,
}
use pglite4j.Prelude.Bits.{bit-complement, byte_ext}

-- What a call does to `*set`: it returns 0 and leaves a set there, it returns -1 with `errno` at
-- EINVAL, or it shifts a 32-bit word by 32 or more, which C leaves undefined.
pub data SetCall : Type 0 where
  done : ℕ → SetCall
  einval undefined : SetCall

-- Conversion to `unsigned char`, and to `unsigned int`.
abbrev pub to_byte : ℕ → ℕ
to_byte x = x % 256

abbrev pub to_word : ℕ → ℕ
to_word x = x % 2 ^ 32

-- `~x` of an unsigned 32-bit word
abbrev pub complement : ℕ → ℕ
complement x = 2 ^ 32 - 1 - x

unfoldable pub sigemptyset : SetCall
sigemptyset = done 0

-- `(sigset_t)( ((2U << (NSIG - 1)) - 1) & ~ SIGABRT_COMPAT_MASK )`, with the mask 0.
unfoldable pub full_set : (nsig : ℕ) → ℕ
full_set nsig =
    to_byte (bit_and (to_word (to_word (2 * 2 ^ (nsig - 1)) + 2 ^ 32 - 1)) (complement 0))

unfoldable pub sigfillset : (nsig : ℕ) → SetCall
unfolding full_set
sigfillset nsig = if ltb 0 nsig && ltb (nsig - 1) 32 then done (full_set nsig) else undefined

-- A set with the signal added, and with it deleted: `*set |= 1U << sig`, `*set &= ~(1U << sig)`.
unfoldable pub with_signal : ℕ → ℕ → ℕ
with_signal set sig = to_byte (bit_or set (2 ^ sig))

unfoldable pub without_signal : ℕ → ℕ → ℕ
without_signal set sig = to_byte (bit_and set (complement (2 ^ sig)))

unfoldable pub sigaddset : (nsig set : ℕ) → (sig : ℤ) → SetCall
sigaddset nsig set (negsuc n) = einval
sigaddset nsig set (pos sig) =
    if ltb sig nsig then (if ltb sig 32 then done (with_signal set sig) else undefined) else einval

unfoldable pub sigdelset : (nsig set : ℕ) → (sig : ℤ) → SetCall
sigdelset nsig set (negsuc n) = einval
sigdelset nsig set (pos sig) =
    if ltb sig nsig
    then (if ltb sig 32 then done (without_signal set sig) else undefined)
    else einval

-- The stub returns -1 whatever it is asked.
unfoldable pub sigismember : (set : ℕ) → (sig : ℤ) → ℤ
sigismember set sig = negsuc 0

-- `signum` is in the set.
abbrev pub member : ℕ → ℕ → Bool
member set k = bit set k == 1

-- The bit of a signal below 8 is a byte.
pub pow-lt : (s : ℕ) → s < 8 → 2 ^ s < 256
pow-lt s h =
    let below : 2 ^ s ≤ 2 ^ 7 =
      pow-le-pow_right {n = 2} (omega arith) {i = s} {j = 7} (omega arith) in
    omega arith

pow-lt-word : (s : ℕ) → s < 32 → 2 ^ s < 2 ^ 32
pow-lt-word s h =
    let below : 2 ^ s ≤ 2 ^ 31 =
      pow-le-pow_right {n = 2} (omega arith) {i = s} {j = 31} (omega arith) in
    omega arith

bit-with_signal :
    (set sig k : ℕ) → k < 8 → bit (with_signal set sig) k ≡ max (bit set k) (bit (2 ^ sig) k)
unfolding with_signal
bit-with_signal set sig k h = bit-byte (bit_or set (2 ^ sig)) k h ∙ bit-bit_or set (2 ^ sig) k

-- Adding a signal below 8 adds that one; a higher one has no bit to go to.
pub member-with_signal :
    (set sig k : ℕ) → k < 8 → member (with_signal set sig) k ≡ (k == sig || member set k)
member-with_signal set sig k h =
    ground (arith, bit-with_signal set sig k, bit-pow sig k, bit-le-one set k)

bit-without_signal :
    (set sig k : ℕ)
    → k < 8
    → sig < 32
    → bit (without_signal set sig) k ≡ min (bit set k) (1 - bit (2 ^ sig) k)
unfolding without_signal
bit-without_signal set sig k h fits =
    bit-byte (bit_and set (complement (2 ^ sig))) k h
    ∙ bit-bit_and set (complement (2 ^ sig)) k
    ∙ ap (min (bit set k)) (bit-complement (2 ^ sig) k (pow-lt-word sig fits) h)

pub member-without_signal :
    (set sig k : ℕ)
    → k < 8
    → sig < 32
    → member (without_signal set sig) k ≡ (not (k == sig) && member set k)
member-without_signal set sig k h fits =
    ground (arith, bit-without_signal set sig k, bit-pow sig k, bit-le-one set k)

pub with_signal-lt : (set sig : ℕ) → with_signal set sig < 256
unfolding with_signal
with_signal-lt set sig = omega arith

pub without_signal-lt : (set sig : ℕ) → without_signal set sig < 256
unfolding without_signal
without_signal-lt set sig = omega arith

-- A byte has no member from 8 on.
pub member_high : (set k : ℕ) → set < 256 → 8 ≤ k → member set k ≡ false
member_high set k lt h = ground (arith, bit-byte_high set k lt h)

-- Sets with the same members are equal.
pub set_ext : (a b : ℕ) → a < 256 → b < 256 → ((k : ℕ) → k < 8 → member a k ≡ member b k) → a ≡ b
set_ext a b la lb same =
    byte_ext a b la lb λ k h. ground (arith, same k h, bit-le-one a k, bit-le-one b k)
