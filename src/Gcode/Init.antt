-- ===== src/Gcode/Init.antt =====
-- The probe for a GCLoader leaves its medium as it is.
use cubiboot.Base.{ℕ, zero, suc, Bool, Option, none, some, ◌≡◌, refl, ◌∙◌, Bool-cases, inl, inr}
use cubiboot.Gcode.{inquire, attempts, init_attempts, gcode_sd_init, is_gcloader}
use cubiboot.Gcode.Bus.{DiBus, wait_keeps, poll_limit}

module _ {Sector : Type 0} (di : DiBus Sector) where
  open di use {Bus, medium, prepare, start, poll, settle, prepare_keeps, start_keeps, settle_keeps}

  inquire_keeps : (b : Bus) → medium (inquire di b).1 ≡ medium b
  unfolding inquire
  inquire_keeps b = wait_keeps di poll_limit _ ∙ start_keeps _ _ ∙ prepare_keeps b

  attempts_keeps : (n : ℕ) (b : Bus) → medium (attempts di n b).1 ≡ medium b
  unfolding attempts
  attempts_keeps zero b = refl
  attempts_keeps (suc n) b = elim (Bool-cases (inquire di b).0) [
    | inl e ↦ elim (Bool-cases (is_gcloader di (inquire di b).1)) [
      | inl f ↦ rw (e, f) (inquire_keeps b)
      | inr f ↦
          rw (e, f) (attempts_keeps n (settle (inquire di b).1) ∙ settle_keeps _ ∙ inquire_keeps b)
    ]
    | inr e ↦ rw e (inquire_keeps b)
  ]

  pub init_keeps : (h : Option Bool) (b : Bus) → medium (gcode_sd_init di h b).2 ≡ medium b
  unfolding gcode_sd_init
  init_keeps none b = attempts_keeps init_attempts b
  init_keeps (some k) b = refl
