-- ===== src/Gcode/Read.antt =====
-- A read of the GCLoader delivers what its medium holds.
use cubiboot.Base.{
  ℕ, zero, suc, ◌+◌, ◌-◌, ◌*◌, ◌%◌, ◌^◌, ◌≤◌, ◌<◌, Bool, true, false, Option, some, List, [], ◌++◌,
  ◌≡◌, refl, sym, ◌∙◌, ap, Bool-cases, ◌⊎◌, inl, inr, arith, ◌==◌, span, append-nil, append_assoc,
  ==_iff, subst,
}
use cubiboot.Cache.Held.Medium.{span_add}
use cubiboot.Gcode.{
  chunk_of, gcode_read_aligned, read_chunks, read_bounced, gcode_sd_init, gcode_sd_read,
}
use cubiboot.Gcode.Bus.{DiBus, read_command, wait, wait_keeps, poll_limit, gcode_sector_size}
use cubiboot.Gcode.Init.{init_keeps}

chunk_lem :
    (count : ℕ)
    → 0 < count
    → count < 2 ^ 23
    → (0 < chunk_of count)
      × (chunk_of count ≤ count)
      × (chunk_of count * gcode_sector_size % 2 ^ 32 ≡ chunk_of count * gcode_sector_size)
chunk_lem count pos small = (ground arith, ground arith, ground arith)

module _ {Sector : Type 0} (di : DiBus Sector) where
  open di use {
    Bus, medium, prepare, start, poll, device_error, landed, prepare_keeps, start_keeps, read_lands,
  }

  -- What a transfer leaves: the medium as it was, and if it succeeds the sectors asked for.
  abbrev Delivers : (ℕ → Sector) → List Sector → Bool × List Sector × Bus → Type 0
  Delivers m xs o = (medium o.2 ≡ m) × ((o.0 ≡ false) ⊎ ((o.0 ≡ true) × (o.1 ≡ xs)))

  -- The bus behind a transfer.
  abbrev sent : ℕ → ℕ → Bus → Bool × Bus
  sent sector n b =
      wait poll poll_limit (start (prepare b) (read_command sector (n * gcode_sector_size)))

  -- A transfer of `n` sectors.
  aligned-Delivers :
      (sector n : ℕ) (b : Bus)
      → Delivers
          (medium b)
          (span (medium b) sector n)
          (gcode_read_aligned di sector (n * gcode_sector_size) b)
  unfolding gcode_read_aligned
  aligned-Delivers sector n b =
      let kept : medium (sent sector n b).1 ≡ medium b =
        wait_keeps di poll_limit (start (prepare b) (read_command sector (n * gcode_sector_size)))
        ∙ start_keeps (prepare b) (read_command sector (n * gcode_sector_size))
        ∙ prepare_keeps b in
      elim (Bool-cases (sent sector n b).0) [
        | inl e ↦ elim (Bool-cases (device_error (sent sector n b).1)) [
          | inl f ↦ rw (e, f) (kept, inl refl)
          | inr f ↦
              rw (e, f)
                (
                  kept,
                  inr (
                    refl,
                    read_lands (prepare b) sector n poll_limit e f
                        ∙ ap (λ m. span m sector n) (prepare_keeps b),
                  ),
                )
        ]
        | inr e ↦ rw e (kept, inl refl)
      ]

  -- What follows a transfer of `n` sectors completes it.
  followed :
      (m : ℕ → Sector) (sector n k count : ℕ) (out got : List Sector) (done : Bus)
      (o : Bool × List Sector × Bus)
      → n + k ≡ count
      → medium done ≡ m
      → got ≡ span m sector n
      → Delivers (medium done) ((out ++ got) ++ span (medium done) (sector + n) k) o
      → Delivers m (out ++ span m sector count) o
  followed m sector n k count out got done o e kept here (kept', later) = (
    kept' ∙ kept,
    elim later [
      | inl bad ↦ inl bad
      | inr (ok, all) ↦ inr (
        ok,
        all
            ∙ append_assoc out got _
            ∙ ap (λ l. out ++ (l ++ span (medium done) (sector + n) k)) here
            ∙ ap (λ f. out ++ (span m sector n ++ span f (sector + n) k)) kept
            ∙ ap (λ l. out ++ l) (sym (span_add m sector n k (sector + n) refl))
            ∙ ap (λ c. out ++ span m sector c) e,
      )
    ],
  )

  -- The transfer of the first chunk of `count` sectors.
  abbrev first_chunk : ℕ → ℕ → Bus → Bool × List Sector × Bus
  first_chunk sector count b =
      gcode_read_aligned di sector (chunk_of count * gcode_sector_size % 2 ^ 32) b

  chunks_done :
      (f sector count : ℕ) (out : List Sector) (b : Bus)
      → (count == 0) ≡ true
      → read_chunks di (suc f) sector count out b ≡ some (true, out, b)
  unfolding read_chunks
  chunks_done f sector count out b e = rw e

  chunks_fail :
      (f sector count : ℕ) (out : List Sector) (b : Bus)
      → (count == 0) ≡ false
      → (first_chunk sector count b).0 ≡ false
      → read_chunks di (suc f) sector count out b
        ≡ some (false, out ++ (first_chunk sector count b).1, (first_chunk sector count b).2)
  unfolding read_chunks
  chunks_fail f sector count out b e bad = rw (e, bad)

  chunks_step :
      (f sector count : ℕ) (out : List Sector) (b : Bus)
      → (count == 0) ≡ false
      → (first_chunk sector count b).0 ≡ true
      → read_chunks di (suc f) sector count out b
        ≡ read_chunks di f
            ((sector + chunk_of count) % 2 ^ 32)
            (count - chunk_of count)
            (out ++ (first_chunk sector count b).1)
            (first_chunk sector count b).2
  unfolding read_chunks
  chunks_step f sector count out b e ok = rw (e, ok)

  -- The loop of the aligned path, with enough fuel.
  chunks-Delivers :
      (f sector count : ℕ) (out : List Sector) (b : Bus)
      → count < f
      → count < 2 ^ 23
      → sector + count < 2 ^ 32
      → (o : Bool × List Sector × Bus) × (read_chunks di f sector count out b ≡ some o)
        × Delivers (medium b) (out ++ span (medium b) sector count) o
  chunks-Delivers zero sector count out b lt small bound = absurd (omega arith)
  chunks-Delivers (suc f) sector count out b lt small bound = elim (Bool-cases (count == 0)) [
    | inl e ↦
        (let z : 0 ≡ count = sym ((==_iff _ _).0 e) in
          (
            _,
            chunks_done f sector count out b e,
            (refl, inr (refl, sym (append-nil out) ∙ ap (λ c. out ++ span (medium b) sector c) z)),
          ))
    | inr e ↦
        (let (pos, le, exact) = chunk_lem count (ground arith) small in
          let first : Delivers (medium b) (span (medium b) sector (chunk_of count))
              (first_chunk sector count b) =
            subst
              (λ t.
                Delivers (medium b) (span (medium b) sector (chunk_of count))
                  (gcode_read_aligned di sector t b))
              (sym exact) (aligned-Delivers sector (chunk_of count) b) in
          elim (first.1) [
            | inl bad ↦ (_, chunks_fail f sector count out b e bad, (first.0, inl refl))
            | inr (ok, here) ↦
                (let (o, h, d) =
                    chunks-Delivers f ((sector + chunk_of count) % 2 ^ 32) (count - chunk_of count)
                      (out ++ (first_chunk sector count b).1) (first_chunk sector count b).2
                      (omega arith) (omega arith) (omega arith) in
                  let wrap : (sector + chunk_of count) % 2 ^ 32 ≡ sector + chunk_of count =
                    omega arith in
                  (
                    o,
                    chunks_step f sector count out b e ok ∙ h,
                    followed (medium b) sector (chunk_of count) (count - chunk_of count) count out
                        (first_chunk sector count b).1 (first_chunk sector count b).2 o
                        (omega arith) first.0 here
                        (subst
                          (λ t.
                            Delivers (medium (first_chunk sector count b).2)
                              ((out ++ (first_chunk sector count b).1)
                                ++ span (medium (first_chunk sector count b).2) t
                                    (count - chunk_of count))
                              o)
                          wrap d),
                  ))
          ])
  ]

  -- The loop of the unaligned path.
  bounced-Delivers :
      (left sector : ℕ) (out : List Sector) (b : Bus)
      → sector + left < 2 ^ 32
      → Delivers (medium b) (out ++ span (medium b) sector left) (read_bounced di left sector out b)
  unfolding read_bounced
  bounced-Delivers zero sector out b bound = (refl, inr (refl, sym (append-nil out)))
  bounced-Delivers (suc left) sector out b bound =
      let (kept, got) = aligned-Delivers sector 1 b in
      elim got [
        | inl bad ↦ rw bad (kept, inl refl)
        | inr (ok, here) ↦
            (let wrap : (sector + 1) % 2 ^ 32 ≡ sector + 1 = omega arith in
              rw (ok, wrap)
                (followed (medium b) sector 1 left (suc left) out _ _ _ (omega arith) kept here
                  (bounced-Delivers left (sector + 1) _ _ (omega arith))))
      ]

  -- A read of the GCLoader returns, whatever is known of it: the medium is as it was, and either the
  -- call fails, or it delivers the sectors that the medium holds. The request is of fewer than 2^23
  -- sectors, so that 32 bits count its bytes, and ends below sector 2^32.
  pub gcode_sd_read_lem :
      (is_aligned : Bool) (sector count : ℕ) (has_gcode : Option Bool) (b : Bus)
      → count < 2 ^ 23
      → sector + count < 2 ^ 32
      → (ok : Bool) × (got : List Sector) × (has_gcode' : Option Bool) × (b' : Bus) × (gcode_sd_read
            di is_aligned sector count has_gcode b
          ≡ some (ok, got, has_gcode', b'))
        × (medium b' ≡ medium b)
        × ((ok ≡ false) ⊎ ((ok ≡ true) × (got ≡ span (medium b) sector count)))
  unfolding gcode_sd_read
  gcode_sd_read_lem is_aligned sector count has_gcode b small bound =
      elim (Bool-cases (gcode_sd_init di has_gcode b).0) [
        | inl e ↦ elim (Bool-cases is_aligned) [
          | inl al ↦
              (let (o, h, d) =
                  chunks-Delivers (count + 1) sector count [] ready (omega arith) small bound in
                let all = from_ready sector count o d in
                (o.0, o.1, (gcode_sd_init di has_gcode b).1, o.2, rw (e, al, h), all.0, all.1))
          | inr un ↦
              (let all = from_ready sector count _ (bounced-Delivers count sector [] ready bound) in
                (
                  (read_bounced di count sector [] ready).0,
                  (read_bounced di count sector [] ready).1,
                  (gcode_sd_init di has_gcode b).1,
                  (read_bounced di count sector [] ready).2,
                  rw (e, un),
                  all.0,
                  all.1,
                ))
        ]
        | inr e ↦ (
          false,
          [],
          (gcode_sd_init di has_gcode b).1,
          (gcode_sd_init di has_gcode b).2,
          rw e,
          init_keeps di has_gcode b,
          inl refl,
        )
      ]
    where
      ready : Bus
      ready = (gcode_sd_init di has_gcode b).2

      from_ready :
          (sector' count' : ℕ) (o : Bool × List Sector × Bus)
          → Delivers (medium ready) (span (medium ready) sector' count') o
          → Delivers (medium b) (span (medium b) sector' count') o
      from_ready sector' count' o d =
          subst (λ m. Delivers m (span m sector' count') o) (init_keeps di has_gcode b) d
