-- ===== src/Games/Shown.antt =====
-- Which entries of a directory the game list shows: patches/source/games.c, lines 472 to 500 and 554 to
-- 565.
use cubiboot.Base.{
  ℕ, Bool, true, false, List, [], ◌∷◌, ◌++◌, ◌≡◌, ◌≢◌, refl, sym, ◌∙◌, ap, Bool-cases, inl, inr,
  ◌⊎◌, arith, ◌==◌, bit_and, ==_iff,
}
use cubiboot.Emu.Services.{FileEntry, file_entry_type_dir}
use cubiboot.Games.Target.{ends_with-append}
use cubiboot.Games.Files.{
  FileType, type_directory, type_game, type_program, type_unknown, type_of, is_skipped,
  check_file_hidden, hidden_file_names, one_of, ends_with, begins_with, is_unknown,
  gm_get_file_type, file_attrib_flag_hidden,
}

-- An entry that a user is to see: its attribute does not hide it, its name does not start with a dot
-- or a tilde, nor end with a tilde, and is none of the system's, and it is a directory, a game or a
-- program.
pub record Shown (ent : FileEntry) : Type 0 where
  pub attribute : bit_and ent.attrib file_attrib_flag_hidden ≡ 0
  pub no_dot : (s : List ℕ) → ent.name ≢ 0x2E ∷ s
  pub no_tilde : (s : List ℕ) → ent.name ≢ 0x7E ∷ s
  pub no_tilde_last : (s : List ℕ) → ent.name ≢ s ++ (0x7E ∷ [])
  pub not_of_system : one_of ent.name hidden_file_names ≡ false
  pub known : (ent.type ≡ file_entry_type_dir) ⊎ (gm_get_file_type ent.name ≢ type_unknown)

begins_none : (c : ℕ) (s : List ℕ) → begins_with c (c ∷ s) ≡ true
begins_none c s = ground arith

begins_some : (c : ℕ) (name : List ℕ) → ((s : List ℕ) → name ≢ c ∷ s) → begins_with c name ≡ false
begins_some c [] h = refl
begins_some c (d ∷ s) h = elim (Bool-cases (d == c)) [
  | inl e ↦ absurd (h s (ap (λ k. k ∷ s) ((==_iff d c).0 e)))
  | inr e ↦ e
]

ends_some :
    (c : ℕ) (name : List ℕ) → ((s : List ℕ) → name ≢ s ++ (c ∷ [])) → ends_with c name ≡ false
unfolding ends_with
ends_some c [] h = refl
ends_some c (d ∷ []) h = elim (Bool-cases (d == c)) [
  | inl e ↦ absurd (h [] (ap (λ k. k ∷ []) ((==_iff d c).0 e)))
  | inr e ↦ e
]
ends_some c (d ∷ e ∷ s) h = ends_some c (e ∷ s) (λ t q. h (d ∷ t) (ap (◌∷◌ d) q))

-- What holds of a string, by a test that another string passes, is not that of the other.
differs : (test : List ℕ → Bool) (s t : List ℕ) → test s ≡ false → test t ≡ true → s ≢ t
differs test s t fails passes e = absurd (cc (sym fails ∙ ap test e ∙ passes))

known_lem :
    (ent : FileEntry)
    → is_unknown (type_of ent) ≡ false
    → (ent.type ≡ file_entry_type_dir) ⊎ (gm_get_file_type ent.name ≢ type_unknown)
unfolding type_of
known_lem ent h = elim (Bool-cases (ent.type == file_entry_type_dir)) [
  | inl e ↦ inl ((==_iff ent.type file_entry_type_dir).0 e)
  | inr e ↦ inr (λ q. absurd (cc (rw (e, q) at h)))
]

known_back : (t : FileType) → t ≢ type_unknown → is_unknown t ≡ false
known_back type_unknown h = absurd (h refl)
known_back type_directory h = refl
known_back type_program h = refl
known_back type_game h = refl

known-type :
    (ent : FileEntry)
    → (ent.type ≡ file_entry_type_dir) ⊎ (gm_get_file_type ent.name ≢ type_unknown)
    → is_unknown (type_of ent) ≡ false
unfolding type_of
known-type ent h = elim (Bool-cases (ent.type == file_entry_type_dir)) [
  | inl e ↦ rw e refl
  | inr e ↦ elim h [
    | inl d ↦ absurd (cc (sym e ∙ (==_iff ent.type file_entry_type_dir).1 d))
    | inr d ↦ rw e (known_back (gm_get_file_type ent.name) d)
  ]
]

-- The listing passes over the entries that are not to be seen, and no others.
pub kept-Shown : (ent : FileEntry) → is_skipped ent ≡ false → Shown ent
unfolding check_file_hidden
kept-Shown ent h =
    let attribute : (bit_and ent.attrib file_attrib_flag_hidden == 0) ≡ true = ground (arith, h) in
    let dot : begins_with 0x2E ent.name ≡ false = ground (arith, h) in
    let tilde : begins_with 0x7E ent.name ≡ false = ground (arith, h) in
    let last : ends_with 0x7E ent.name ≡ false = ground (arith, h) in
    let known : is_unknown (type_of ent) ≡ false = ground (arith, h) in
    record {
      attribute = (==_iff _ _).0 attribute;
      no_dot = λ s. differs (begins_with 0x2E) ent.name (0x2E ∷ s) dot (begins_none 0x2E s);
      no_tilde = λ s. differs (begins_with 0x7E) ent.name (0x7E ∷ s) tilde (begins_none 0x7E s);
      no_tilde_last =
          λ s. differs (ends_with 0x7E) ent.name (s ++ (0x7E ∷ [])) last (ends_with-append s 0x7E);
      not_of_system = ground (arith, h);
      known = known_lem ent known;
    }

pub Shown-kept : (ent : FileEntry) → Shown ent → is_skipped ent ≡ false
unfolding check_file_hidden
Shown-kept ent h =
    let a : (bit_and ent.attrib file_attrib_flag_hidden == 0) ≡ true = (==_iff _ _).1 h.attribute in
    rw
      (
        a,
        begins_some 0x2E ent.name h.no_dot,
        begins_some 0x7E ent.name h.no_tilde,
        ends_some 0x7E ent.name h.no_tilde_last,
        h.not_of_system,
        known-type ent h.known,
      )
      refl
