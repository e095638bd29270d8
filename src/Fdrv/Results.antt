-- ===== src/Fdrv/Results.antt =====
-- What a caller of the FlippyDrive client gets back: fdrv_wait, fdrv_status and fdrv_fs_info of
-- cubeboot/source/emu/fdrv.c, lines 92 to 161, 334 to 348 and 435 to 443.
use cubiboot.Base.{
  false, List, ℕ, zero, suc, ◌<◌, Bool, true, not, some, [], ◌≡◌, refl, sym, ◌∙◌, Bool-cases, ◌⊎◌,
  inl, inr, arith, if◌then◌else◌,
}
use cubiboot.Fdrv.{FdBus, fdrv_wait, fdrv_dma_from, di_dma_read, error_bit}
use cubiboot.Fdrv.Files.{
  FileStatus, FsInfo, fdrv_status, fdrv_fs_info, file_status_of, fs_info_of, blob_size, file_word,
  ipc_read_status, ipc_fs_info,
}

module _ (di : FdBus) where
  open di use {Bus, prepare, start, poll, device_error, landed}

  -- Whether one of the first `n + 1` reads of the control register says that the transfer is over.
  unfoldable pub quiet_after : ℕ → Bus → Bool
  quiet_after zero b = not (poll b).0
  quiet_after (suc n) b = let later = quiet_after n (poll b).1 in if (poll b).0 then later else true

  quiet_step :
      (n : ℕ) (b : Bus) → (poll b).0 ≡ true → quiet_after (suc n) b ≡ quiet_after n (poll b).1
  unfolding quiet_after
  quiet_step n b e = rw e refl

  wait_returns :
      (fuel n : ℕ) (b : Bus)
      → n < fuel
      → quiet_after n b ≡ true
      → (done : Bus) × (fdrv_wait di fuel b ≡ some (error_bit di done, done))
  unfolding fdrv_wait quiet_after
  wait_returns zero n b h q = absurd (omega arith)
  wait_returns (suc fuel) zero b h q = elim (Bool-cases (poll b).0) [
    | inl e ↦ absurd (cc (e, q))
    | inr e ↦ ((poll b).1, rw e refl)
  ]
  wait_returns (suc fuel) (suc n) b h q = elim (Bool-cases (poll b).0) [
    | inl e ↦
        (let (done, r) =
            wait_returns fuel n (poll b).1 (omega arith) (sym (quiet_step n b e) ∙ q) in
          (done, rw (e, fdrv_wait) r))
    | inr e ↦ ((poll b).1, rw e refl)
  ]

  -- The bus behind the start of a command that reads a blob.
  abbrev asked : ℕ → Bus → Bus
  asked ipc b = start (prepare b) (record {
    cmdbuf0 = file_word ipc 0;
    cmdbuf1 = 0;
    cmdbuf2 = 0;
    length = blob_size;
    control = di_dma_read;
    payload = [];
  })

  -- The drive's verdict on the last transfer decides: without an error the call returns 0 with the
  -- blob, and with one it returns 1, with the blob marked as a failure.
  abbrev pub Told : {A : Type 0} → (List ℕ → A) → (A → ℕ) → ℕ → A → Bus → Type 0
  Told blob_of mark ret dst done =
      ((device_error done ≡ false) × (ret ≡ 0) × (dst ≡ blob_of (landed done)))
      ⊎ ((device_error done ≡ true) × (ret ≡ 1) × (mark dst ≡ 1))

  -- A failed transfer is never passed off as a success, in the answer or in the blob. If the transfer
  -- of the status of a file ends after `n` reads of the control register, the call returns: when the
  -- drive reports no error, 0 with the blob as the drive sent it, and when it reports one, 1 with the
  -- blob marked as a failure.
  pub fdrv_status_lem :
      (fuel n : ℕ) (b : Bus)
      → n < fuel
      → quiet_after n (asked ipc_read_status b) ≡ true
      → (ret : ℕ) × (dst : FileStatus) × (done : Bus) × (fdrv_status di fuel b
          ≡ some (ret, dst, done))
        × Told file_status_of (λ s. s.result) ret dst done
  unfolding fdrv_status fdrv_dma_from
  fdrv_status_lem fuel n b h q =
      let (done, r) = wait_returns fuel n (asked ipc_read_status b) h q in
      elim (Bool-cases (device_error done)) [
        | inr e ↦ (
          0,
          file_status_of (landed done),
          done,
          rw (r, fdrv_status, fdrv_dma_from, e) refl,
          inl (e, refl, refl),
        )
        | inl e ↦ (
          1,
          record (file_status_of (landed done)) { result = 1 },
          done,
          rw (r, fdrv_status, fdrv_dma_from, e) refl,
          inr (e, refl, refl),
        )
      ]

  -- The same of the state of the file system.
  pub fdrv_fs_info_lem :
      (fuel n : ℕ) (b : Bus)
      → n < fuel
      → quiet_after n (asked ipc_fs_info b) ≡ true
      → (ret : ℕ) × (dst : FsInfo) × (done : Bus) × (fdrv_fs_info di fuel b ≡ some (ret, dst, done))
        × Told fs_info_of (λ s. s.fs_result) ret dst done
  unfolding fdrv_fs_info fdrv_dma_from
  fdrv_fs_info_lem fuel n b h q =
      let (done, r) = wait_returns fuel n (asked ipc_fs_info b) h q in
      elim (Bool-cases (device_error done)) [
        | inr e ↦ (
          0,
          fs_info_of (landed done),
          done,
          rw (r, fdrv_fs_info, fdrv_dma_from, e) refl,
          inl (e, refl, refl),
        )
        | inl e ↦ (
          1,
          record (fs_info_of (landed done)) { fs_result = 1 },
          done,
          rw (r, fdrv_fs_info, fdrv_dma_from, e) refl,
          inr (e, refl, refl),
        )
      ]
