-- ===== src/Shm.antt =====
-- `get_shm_path`, `shm_open` and `shm_unlink` of
-- wasm-build/wasm-build/sdk_port-wasi/sdk_port-wasi.c. The files are those of the host, by their
-- path; `SHM` is the environment's variable of that name.
pub mod Laws
use pglite4j.Prelude.{ℕ, ◌+◌, Option, none, some, List, [], ◌∷◌, ◌++◌, ℤ, pos, take}
use pglite4j.Prelude.Text.{CString, codes}
use pglite4j.Prelude.Decimal.{decimal}

-- The text that `snprintf` leaves in a buffer of 128 bytes.
abbrev pub fit : CString → CString
fit = take 127

-- What the calls use of the system: the environment's SHM, `fopen(path, "w+")` with the new
-- descriptor, or `none` for NULL, and `remove` with its result.
pub record Host (Disk : Type 0) : Type 1 where
  pub shm : Option CString
  pub open_file : Disk → CString → Option (ℕ × Disk)
  pub remove : Disk → CString → ℤ × Disk

-- `shm_index`, which is taken to stay below 2^31, and the files.
pub record State (Disk : Type 0) : Type 0 where
  pub shm_index : ℕ
  pub disk : Disk

module _ {Disk : Type 0} (host : Host Disk) where
  -- The path in `tmpnam` and `shm_index` after the call.
  unfoldable pub get_shm_path : (shm_index : ℕ) (name : CString) → CString × ℕ
  get_shm_path shm_index name = elim host.shm [
    | some shm ↦ (fit (shm ++ codes "." ++ decimal shm_index), shm_index + 1)
    | none ↦ (fit (codes "/tmp" ++ name), shm_index)
  ]

  -- The result once `fopen` returned; `none` where `fileno` is given NULL.
  unfoldable pub opened_as : (shm_index : ℕ) → Option (ℕ × Disk) → Option (ℕ × State Disk)
  opened_as shm_index none = none
  opened_as shm_index (some (fd, disk)) = some (fd, record { shm_index = shm_index; disk = disk })

  unfoldable pub shm_open : State Disk → (name : CString) → Option (ℕ × State Disk)
  unfolding get_shm_path opened_as
  shm_open s name =
      let path = get_shm_path s.shm_index name in opened_as path.1 (host.open_file s.disk path.0)

  unfoldable pub shm_unlink : State Disk → (name : CString) → ℤ × State Disk
  unfolding get_shm_path
  shm_unlink s name = elim host.shm [
    | some _ ↦ (pos 0, s)
    | none ↦
        let path = get_shm_path s.shm_index name in
        let removed = host.remove s.disk path.0 in
        (removed.0, record { shm_index = path.1; disk = removed.1 })
  ]

  -- `shm_open` and `shm_unlink` of wasm-build/wasm-build/sdk_port.h, for the builds without the
  -- others.
  unfoldable pub plain_shm_open : Disk → (name : CString) → Option (ℕ × Disk)
  plain_shm_open disk name = host.open_file disk (fit (codes "/tmp" ++ name))

  unfoldable pub plain_shm_unlink : Disk → (name : CString) → ℤ × Disk
  plain_shm_unlink disk name = host.remove disk (fit (codes "/tmp" ++ name))
