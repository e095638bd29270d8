-- ===== src/Boot/Handover.antt =====
-- The arguments that a program finds: those that chainload_swiss_game of
-- cubeboot/source/emu/loader.c passes to it.
use cubiboot.Base.{
  ℕ, zero, suc, ◌+◌, ◌-◌, ◌/◌, ◌%◌, ◌^◌, ◌≤◌, ◌<◌, Bool, true, false, not, ◌&&◌, List, [], ◌∷◌,
  ◌++◌, ◌==◌, if◌then◌else◌, length, length-append, span, ◌≡◌, refl, arith, inl, inr, ◌⊎◌,
  Bool-cases, ◌∙◌, ap, All, codes,
}
use cubiboot.Cache.Device.{overwrite}
use cubiboot.Boot.{DolInfo}
use cubiboot.Boot.Arguments.{store_word, copy_strings, setup_argv, pass_arguments}

-- The strings in a buffer, each up to a 0.
abbrev pub put_first : ℕ → List (List ℕ) → List (List ℕ)
put_first c [] = (c ∷ []) ∷ []
put_first c (s ∷ rest) = (c ∷ s) ∷ rest

unfoldable pub strings_of : List ℕ → List (List ℕ)
strings_of [] = []
strings_of (c ∷ s) = let rest = strings_of s in if c == 0 then [] ∷ rest else put_first c rest

-- A string holds no 0.
abbrev pub no_zero : List ℕ → Bool
no_zero [] = true
no_zero (c ∷ s) = not (c == 0) && no_zero s

abbrev pub flat : List (List ℕ) → List ℕ
flat [] = []
flat (s ∷ rest) = (s ++ (0 ∷ [])) ++ flat rest

strings_of-string :
    (s rest : List ℕ)
    → no_zero s ≡ true
    → strings_of ((s ++ (0 ∷ [])) ++ rest) ≡ s ∷ strings_of rest
unfolding strings_of
strings_of-string [] rest h = refl
strings_of-string (c ∷ s) rest h =
    let other : (c == 0) ≡ false = ground (arith, h) in
    rw (other, strings_of-string s rest (ground (arith, h))) refl

strings_of-flat :
    (strings : List (List ℕ))
    → All (λ s. no_zero s ≡ true) strings
    → strings_of (flat strings) ≡ strings
unfolding strings_of
strings_of-flat [] h = refl
strings_of-flat (s ∷ rest) h =
    strings_of-string s (flat rest) h.0 ∙ ap (◌∷◌ s) (strings_of-flat rest h.1)

pub overwrite-outside :
    (xs : List ℕ) (mem : ℕ → ℕ) (at a : ℕ)
    → (a < at) ⊎ (at + length xs ≤ a)
    → overwrite mem at xs a ≡ mem a
overwrite-outside [] mem at a h = refl
overwrite-outside (x ∷ xs) mem at a h =
    let other : (at == a) ≡ false = ground (arith, h) in
    rw other (overwrite-outside xs mem (at + 1) a (ground (arith, h)))

overwrite_base :
    (xs : List ℕ) (f g : ℕ → ℕ) (at a : ℕ) → f a ≡ g a → overwrite f at xs a ≡ overwrite g at xs a
overwrite_base [] f g at a h = h
overwrite_base (x ∷ xs) f g at a h = elim (Bool-cases (at == a)) [
  | inl e ↦ rw e refl
  | inr e ↦ rw e (overwrite_base xs f g (at + 1) a h)
]

overwrite-append :
    (xs ys : List ℕ) (mem : ℕ → ℕ) (at a : ℕ)
    → overwrite (overwrite mem at xs) (at + length xs) ys a ≡ overwrite mem at (xs ++ ys) a
overwrite-append [] ys mem at a = let same : at + 0 ≡ at = omega arith in rw same refl
overwrite-append (x ∷ xs) ys mem at a = elim (Bool-cases (at == a)) [
  | inl e ↦
      overwrite-outside ys (overwrite mem at (x ∷ xs)) (at + length (x ∷ xs)) a
        (inl (ground (arith, e)))
      ∙ (rw e refl)
  | inr e ↦
      (let base : overwrite mem at (x ∷ xs) a ≡ overwrite mem (at + 1) xs a = rw e refl in
        let shift : at + length (x ∷ xs) ≡ at + 1 + length xs = omega arith in
        let rest = overwrite-append xs ys mem (at + 1) a in
        overwrite_base ys (overwrite mem at (x ∷ xs)) (overwrite (overwrite mem (at + 1) xs) 0 [])
          (at + length (x ∷ xs)) a base
        ∙ (rw (shift, e) rest))
]

span-ext :
    (n s : ℕ) (f g : ℕ → ℕ) → ((a : ℕ) → s ≤ a → a < s + n → f a ≡ g a) → span f s n ≡ span g s n
span-ext zero s f g h = refl
span-ext (suc n) s f g h = rw (h s (omega arith) (omega arith)) (
    ap (◌∷◌ (g s))
      (span-ext n (s + 1) f g (λ a lo hi. h a (omega (arith, lo)) (omega (arith, hi)))))

span-overwrite :
    (xs : List ℕ) (mem : ℕ → ℕ) (at : ℕ) → span (overwrite mem at xs) at (length xs) ≡ xs
span-overwrite [] mem at = refl
span-overwrite (x ∷ xs) mem at =
    let first : (at == at) ≡ true = ground arith in
    let rest : span (overwrite mem at (x ∷ xs)) (at + 1) (length xs)
        ≡ span (overwrite mem (at + 1) xs) (at + 1) (length xs) =
      span-ext (length xs) (at + 1) _ _
        (λ a lo hi. let other : (at == a) ≡ false = ground (arith, lo) in rw other refl) in
    rw first (ap (◌∷◌ x) (rest ∙ span-overwrite xs mem (at + 1)))

pub store_word-outside :
    (mem : ℕ → ℕ) (at v a : ℕ) → (a < at) ⊎ (at + 4 ≤ a) → store_word mem at v a ≡ mem a
store_word-outside mem at v a h =
    overwrite-outside (v / 2 ^ 24 % 256 ∷ v / 2 ^ 16 % 256 ∷ v / 2 ^ 8 % 256 ∷ v % 256 ∷ []) mem at
      a h

pub copy_strings_lem :
    (strings : List (List ℕ)) (at : ℕ) (mem : ℕ → ℕ) (a : ℕ)
    → ((copy_strings strings at mem).0 a ≡ overwrite mem at (flat strings) a)
      × ((copy_strings strings at mem).1 ≡ at + length (flat strings))
unfolding copy_strings
copy_strings_lem [] at mem a = (refl, omega arith)
copy_strings_lem (s ∷ rest) at mem a =
    let own = s ++ (0 ∷ []) in
    let size : length own ≡ length s + 1 = length-append s _ in
    let shift : at + length s + 1 ≡ at + length own = omega (arith, size) in
    let later = copy_strings_lem rest (at + length s + 1) (overwrite mem at own) a in
    (
      later.0 ∙ (rw shift (overwrite-append own (flat rest) mem at a)),
      omega (arith, later.1, size, length-append own (flat rest)),
    )

module _ (strings : List (List ℕ)) (buffer argv_struct magic : ℕ) (mem : ℕ → ℕ) where
  pub setup_argv_len : (setup_argv strings buffer argv_struct magic mem).1 ≡ length (flat strings)
  unfolding setup_argv
  setup_argv_len = omega (arith, (copy_strings_lem strings buffer mem 0).1)

  -- Beside the structure of three words, the memory is that with the strings.
  pub setup_argv_lem :
      (a : ℕ)
      → (a < argv_struct) ⊎ (argv_struct + 12 ≤ a)
      → (setup_argv strings buffer argv_struct magic mem).0 a
        ≡ overwrite mem buffer (flat strings) a
  unfolding setup_argv
  setup_argv_lem a h =
      let copied = copy_strings strings buffer mem in
      let with_magic = store_word copied.0 argv_struct magic in
      let with_line = store_word with_magic (argv_struct + 4) buffer in
      store_word-outside with_line (argv_struct + 8) (copied.1 - buffer) a (ground (arith, h))
      ∙ (store_word-outside with_magic (argv_struct + 4) buffer a (ground (arith, h))
          ∙ (store_word-outside copied.0 argv_struct magic a (ground (arith, h))
              ∙ (copy_strings_lem strings buffer mem a).0))

-- A program is loaded, with its entry point below the end of its image: then its arguments
-- and its environment are in the memory, after the image, whatever they are; the rest of the memory, but
-- for two structures of three words at the entry point, is that of the image.
pub pass_arguments_lem :
    (argv_magic envp_magic : ℕ) (info : DolInfo) (args : List (List ℕ)) (mem : ℕ → ℕ)
    → info.entrypoint + 20 ≤ info.max_addr
    → All (λ s. no_zero s ≡ true) args
    → (argz_len : ℕ) × (argz_len ≡ length (flat args))
      × (strings_of (
            span (pass_arguments argv_magic envp_magic info args mem) (info.max_addr + 32) argz_len)
          ≡ args)
      × (strings_of (
            span
              (pass_arguments argv_magic envp_magic info args mem)
              (info.max_addr + 32 + argz_len + 32)
              11)
          ≡ codes "CUBEBOOT=1" ∷ [])
      × ((a : ℕ)
          → a < info.max_addr + 32
          → (a < info.entrypoint + 8) ⊎ (info.entrypoint + 52 ≤ a)
          → pass_arguments argv_magic envp_magic info args mem a ≡ mem a)
unfolding pass_arguments
pass_arguments_lem argv_magic envp_magic info args mem low clean =
    let argz = info.max_addr + 32 in
    let size = length (flat args) in
    let first = setup_argv args argz (info.entrypoint + 8) argv_magic mem in
    let len : first.1 ≡ size = setup_argv_len args argz (info.entrypoint + 8) argv_magic mem in
    let env = codes "CUBEBOOT=1" ∷ [] in
    let envz = argz + first.1 + 32 in
    let final = pass_arguments argv_magic envp_magic info args mem in
    let env_at : (a : ℕ) → argz ≤ a → final a ≡ overwrite first.0 envz (flat env) a = λ a h.
      setup_argv_lem env envz (info.entrypoint + 40) envp_magic first.0 a
        (inr (omega (arith, low, h))) in
    let args_at : (a : ℕ)
        → argz ≤ a
        → a < argz + size
        → final a ≡ overwrite mem argz (flat args) a =
      λ a lo hi.
        env_at a lo
        ∙ (overwrite-outside (flat env) first.0 envz a (inl (omega (arith, hi, len)))
            ∙ setup_argv_lem args argz (info.entrypoint + 8) argv_magic mem a
                (inr (omega (arith, low, lo)))) in
    (
      first.1,
      len,
      rw len (
          ap strings_of (span-ext size argz final _ args_at ∙ span-overwrite (flat args) mem argz)
          ∙ strings_of-flat args clean),
      ap strings_of (
            span-ext 11 envz final _ (λ a lo hi. env_at a (omega (arith, lo)))
            ∙ span-overwrite (flat env) first.0 envz)
          ∙ strings_of-flat env (refl, tt),
      λ a below beside.
          setup_argv_lem env envz (info.entrypoint + 40) envp_magic first.0 a
            (ground (arith, beside))
          ∙ (overwrite-outside (flat env) first.0 envz a (inl (omega (arith, below)))
              ∙ (setup_argv_lem args argz (info.entrypoint + 8) argv_magic mem a
                    (ground (arith, beside))
                  ∙ overwrite-outside (flat args) mem argz a (inl below))),
    )
