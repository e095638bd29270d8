-- ===== src/Emu/Mount.antt =====
-- What `flippy_emu_mount` chooses.
use cubiboot.Base.{
  ℕ, zero, suc, ◌+◌, ◌≤◌, ◌<◌, Bool, true, false, Option, none, some, ◌≡◌, refl, sym, ◌∙◌, ap, ◌⊎◌,
  inl, inr, Bool-cases, Option-cases, ltb→lt, subst, arith, ltb,
}
use cubiboot.Emu.{
  Emu, probe, retry, adopt_dol, mount_dol, mount_chain, mount_found, mount_ipl, num_devices,
}

module _ {World : Type 0} (bring_up : World → ℕ → Bool × World) where
  -- The devices from `i` up to `k` refuse, one after the other, from hardware `w` to `w'`.
  pub data Refused : ℕ → ℕ → World → World → Type 0 where
    start : (i : ℕ) (w : World) → Refused i i w w
    next :
        {k : ℕ} {w' : World} (i : ℕ) (w : World)
        → (bring_up w i).0 ≡ false
        → Refused (i + 1) k (bring_up w i).1 w'
        → Refused i k w w'

  -- What a probe of `left` devices from `i` on answers.
  pub data Answer (left i : ℕ) (w : World) : Option ℕ × World → Type 0 where
    all_refuse : (w' : World) → Refused i (i + left) w w' → Answer left i w (none, w')
    first_up :
        (k : ℕ) (w' : World)
        → i ≤ k
        → k < i + left
        → Refused i k w w'
        → (bring_up w' k).0 ≡ true
        → Answer left i w (some k, (bring_up w' k).1)

  Answer-next :
      (left i : ℕ) (w : World) (o : Option ℕ × World)
      → (bring_up w i).0 ≡ false
      → Answer left (i + 1) (bring_up w i).1 o
      → Answer (suc left) i w o
  Answer-next left i w o down (all_refuse w' r) =
      all_refuse w'
        (next i w down (subst (λ k. Refused (i + 1) k (bring_up w i).1 w') (omega arith) r))
  Answer-next left i w o down (first_up k w' lo hi r up) =
      first_up k w' (omega arith) (omega arith) (next i w down r) up

  probe-Answer : (left i : ℕ) (w : World) → Answer left i w (probe bring_up left i w)
  unfolding probe
  probe-Answer zero i w = all_refuse w (subst (λ k. Refused i k w w) (omega arith) (start i w))
  probe-Answer (suc left) i w = elim (Bool-cases (bring_up w i).0) [
    | inl up ↦ rw up (first_up i w (omega arith) (omega arith) (start i w) up)
    | inr down ↦ rw down (Answer-next left i w _ down (probe-Answer left (i + 1) (bring_up w i).1))
  ]

  probe-cases :
      {i left : ℕ} {w : World} (o : Option ℕ × World)
      → Answer left i w o
      → ((k : ℕ) × (w' : World) × (k < i + left)
          × Refused i k w w'
          × ((bring_up w' k).0 ≡ true)
          × (o ≡ (some k, (bring_up w' k).1)))
        ⊎ ((w' : World) × Refused i (i + left) w w' × (o ≡ (none, w')))
  probe-cases o (all_refuse w' r) = inr (w', r, refl)
  probe-cases o (first_up k w' lo hi r up) = inl (k, w', hi, r, up, refl)

  mount_dol-none :
      (s : Emu World)
      → s.sd_device ≡ none
      → mount_dol bring_up s ≡ adopt_dol bring_up s (probe bring_up num_devices 0 s.world)
  unfolding mount_dol
  mount_dol-none s e = ground arith

  -- A mount of cubeboot.dol that has no device yet takes the first of the eight that comes up, each
  -- before it having refused, or fails when all refuse, and then has none.
  pub mount_dol_lem :
      (s : Emu World)
      → s.sd_device ≡ none
      → ((k : ℕ) × (w' : World) × (k < num_devices)
          × Refused 0 k s.world w'
          × ((bring_up w' k).0 ≡ true)
          × (mount_dol bring_up s
              ≡ (true, record s { sd_device = some k; world = (bring_up w' k).1 })))
        ⊎ ((w' : World) × Refused 0 num_devices s.world w'
            × (mount_dol bring_up s ≡ (false, record s { world = w' })))
  unfolding mount_dol
  mount_dol_lem s e =
      elim (probe-cases (probe bring_up num_devices 0 s.world)
        (probe-Answer num_devices 0 s.world)) [
          | inl (k, w', hi, r, up, p) ↦
              inl (k, w', hi, r, up, mount_dol-none s e ∙ ap (adopt_dol bring_up s) p)
          | inr (w', r, p) ↦ inr (w', r, mount_dol-none s e ∙ ap (adopt_dol bring_up s) p)
        ]

  retry_same :
      (other : World → ℕ → Bool × World) (i : ℕ)
      → ((w : World) → other w i ≡ bring_up w i)
      → (left waits : ℕ) (w : World) → retry other left i waits w ≡ retry bring_up left i waits w
  unfolding retry
  retry_same other i same zero waits w = refl
  retry_same other i same (suc left) waits w =
      rw (same w, retry_same other i same left (waits + 1) (bring_up w i).1)

  -- When cubeboot.dol found device `i` of the eight, the IPL's mount depends on that device alone: two
  -- kinds of hardware that answer alike for device `i` give the same result, whatever the others do.
  pub mount_ipl_only :
      (other : World → ℕ → Bool × World) (i : ℕ) (s : Emu World)
      → i < num_devices
      → s.sd_device ≡ some i
      → ((w : World) → other w i ≡ bring_up w i)
      → mount_ipl other s ≡ mount_ipl bring_up s
  unfolding mount_ipl mount_found
  mount_ipl_only other i s lt e same =
      let inside : ltb i num_devices ≡ true = ground arith in
      rw (e, inside, retry_same other i same 30 s.udelays s.world)

  -- Mounted, on one of the eight devices.
  abbrev Mounted : Emu World → Type 0
  Mounted s = (s.mounted ≡ true) × ((i : ℕ) × (i < num_devices) × (s.sd_device ≡ some i))

  mount_found-Mounted :
      (i : ℕ) (s : Emu World)
      → i < num_devices
      → s.sd_device ≡ some i
      → (mount_found bring_up i s).0 ≡ true
      → Mounted (mount_found bring_up i s).1
  unfolding mount_found
  mount_found-Mounted i s lt e =
      elim (Bool-cases (retry bring_up 30 i s.udelays s.world).0)
        as (λ _. (mount_found bring_up i s).0 ≡ true → Mounted (mount_found bring_up i s).1) [
          | inl up ↦ rw up (λ ok. (refl, (i, lt, e)))
          | inr down ↦ rw down (λ ok. absurd (ground arith))
        ]

  mount_chain-Mounted :
      (s : Emu World) → (mount_chain bring_up s).0 ≡ true → Mounted (mount_chain bring_up s).1
  unfolding mount_chain
  mount_chain-Mounted s =
      elim (probe-cases (probe bring_up num_devices 0 s.world) (probe-Answer num_devices 0 s.world))
        as (λ _. (mount_chain bring_up s).0 ≡ true → Mounted (mount_chain bring_up s).1) [
          | inl (k, w', hi, r, up, p) ↦ rw p (λ ok. (refl, (k, hi, refl)))
          | inr (w', r, p) ↦ rw p (λ ok. absurd (ground arith))
        ]

  mount_ipl_mounted : (s : Emu World) → s.mounted ≡ true → mount_ipl bring_up s ≡ (true, s)
  unfolding mount_ipl
  mount_ipl_mounted s e = ground arith

  mount_ipl-Mounted :
      (s : Emu World)
      → s.mounted ≡ false
      → (mount_ipl bring_up s).0 ≡ true
      → Mounted (mount_ipl bring_up s).1
  unfolding mount_ipl
  mount_ipl-Mounted s fresh =
      elim (Option-cases s.sd_device)
        as (λ _. (mount_ipl bring_up s).0 ≡ true → Mounted (mount_ipl bring_up s).1) [
          | inl e ↦
              (let q : mount_ipl bring_up s ≡ mount_chain bring_up s = ground arith in
                subst (λ (o : Bool × Emu World). o.0 ≡ true → Mounted o.1) (sym q)
                  (mount_chain-Mounted s))
          | inr (i, e) ↦
              elim (Bool-cases (ltb i num_devices))
                as (λ _. (mount_ipl bring_up s).0 ≡ true → Mounted (mount_ipl bring_up s).1) [
                  | inl lt ↦
                      (let q : mount_ipl bring_up s ≡ mount_found bring_up i s = ground arith in
                        subst (λ (o : Bool × Emu World). o.0 ≡ true → Mounted o.1) (sym q)
                          (mount_found-Mounted i s (ltb→lt _ _ lt) e))
                  | inr ge ↦
                      (let q : mount_ipl bring_up s ≡ mount_chain bring_up s = ground arith in
                        subst (λ (o : Bool × Emu World). o.0 ≡ true → Mounted o.1) (sym q)
                          (mount_chain-Mounted s))
                ]
        ]

  -- When the first mount of the IPL succeeds, its device is one of the eight, and a further mount succeeds and
  -- changes nothing.
  mount_ipl_again :
      (s : Emu World)
      → s.mounted ≡ false
      → (mount_ipl bring_up s).0 ≡ true
      → ((i : ℕ) × (i < num_devices) × ((mount_ipl bring_up s).1.sd_device ≡ some i))
        × (mount_ipl bring_up (mount_ipl bring_up s).1 ≡ (true, (mount_ipl bring_up s).1))
  mount_ipl_again s fresh e =
      let (on, device) = mount_ipl-Mounted s fresh e in
      (device, mount_ipl_mounted (mount_ipl bring_up s).1 on)
