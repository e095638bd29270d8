-- ===== src/Boot/Structs.antt =====
-- The two structures by which a program finds its arguments and its environment: setup_argv of
-- cubeboot/source/emu/loader.c.
use cubiboot.Base.{
  ℕ, ◌+◌, ◌*◌, ◌%◌, ◌^◌, ◌≤◌, ◌<◌, true, false, List, [], ◌∷◌, length, ◌≡◌, refl, arith, inl, ◌⊎◌,
  ◌∙◌, ap, codes, ◌==◌,
}
use cubiboot.Boot.{DolInfo}
use cubiboot.Boot.Arguments.{store_word, copy_strings, setup_argv, pass_arguments}
use cubiboot.Boot.Handover.{
  flat, overwrite-outside, store_word-outside, setup_argv_len, setup_argv_lem,
}

-- The big-endian word at an address.
abbrev pub word_at : (ℕ → ℕ) → ℕ → ℕ
word_at mem a = mem a * 2 ^ 24 + mem (a + 1) * 2 ^ 16 + mem (a + 2) * 2 ^ 8 + mem (a + 3)

-- A structure of three words: a magic number, the address of the strings, and their length.
pub record ArgvStruct (mem : ℕ → ℕ) (at magic line len : ℕ) : Type 0 where
  pub argv_magic : word_at mem at ≡ magic % 2 ^ 32
  pub command_line : word_at mem (at + 4) ≡ line % 2 ^ 32
  pub line_length : word_at mem (at + 8) ≡ len % 2 ^ 32

word_frame :
    (f g : ℕ → ℕ) (a : ℕ) → ((k : ℕ) → k < 4 → f (a + k) ≡ g (a + k)) → word_at f a ≡ word_at g a
word_frame f g a h =
    let start : a + 0 ≡ a = omega arith in
    let first = rw start at (h 0 (omega arith)) in
    rw (first, h 1 (omega arith), h 2 (omega arith), h 3 (omega arith)) refl

store_word-here : (mem : ℕ → ℕ) (at v : ℕ) → word_at (store_word mem at v) at ≡ v % 2 ^ 32
store_word-here mem at v =
    let e0 : (at == at) ≡ true = ground arith in
    let e1 : (at == at + 1) ≡ false = ground arith in
    let e2 : (at == at + 2) ≡ false = ground arith in
    let e3 : (at == at + 3) ≡ false = ground arith in
    let f2 : (at + 1 == at + 2) ≡ false = ground arith in
    let f3 : (at + 1 == at + 3) ≡ false = ground arith in
    let g1 : (at + 1 + 1 == at + 2) ≡ true = ground arith in
    let g2 : (at + 1 + 1 == at + 3) ≡ false = ground arith in
    let g3 : (at + 1 + 1 + 1 == at + 3) ≡ true = ground arith in
    let e4 : (at + 1 == at + 1) ≡ true = ground arith in
    rw (e0, e1, e2, e3, e4, f2, f3, g1, g2, g3) (omega arith)

store_word-apart :
    (mem : ℕ → ℕ) (at v a : ℕ)
    → (a + 4 ≤ at) ⊎ (at + 4 ≤ a)
    → word_at (store_word mem at v) a ≡ word_at mem a
store_word-apart mem at v a h =
    word_frame (store_word mem at v) mem a
      (λ k small. store_word-outside mem at v (a + k) (ground arith))

module _ (strings : List (List ℕ)) (buffer at magic : ℕ) (mem : ℕ → ℕ) where
  setup_argv-ArgvStruct :
      ArgvStruct (setup_argv strings buffer at magic mem).0 at magic buffer (length (flat strings))
  unfolding setup_argv
  setup_argv-ArgvStruct =
      let copied = copy_strings strings buffer mem in
      let with_magic = store_word copied.0 at magic in
      let with_line = store_word with_magic (at + 4) buffer in
      let len = setup_argv_len strings buffer at magic mem in
      record {
        argv_magic =
            store_word-apart with_line (at + 8) _ at (inl (omega arith))
            ∙ store_word-apart with_magic (at + 4) buffer at (inl (omega arith))
            ∙ store_word-here copied.0 at magic;
        command_line =
            store_word-apart with_line (at + 8) _ (at + 4) (inl (omega arith))
            ∙ store_word-here with_magic (at + 4) buffer;
        line_length = store_word-here with_line (at + 8) _ ∙ ap (λ n. n % 2 ^ 32) len;
      }

  -- A word below the strings and beside the structure is that of the memory before.
  setup_argv-apart :
      (a : ℕ)
      → a + 4 ≤ buffer
      → (a + 4 ≤ at) ⊎ (at + 12 ≤ a)
      → word_at (setup_argv strings buffer at magic mem).0 a ≡ word_at mem a
  setup_argv-apart a low apart =
      word_frame (setup_argv strings buffer at magic mem).0 mem a (λ k small.
        setup_argv_lem strings buffer at magic mem (a + k) (ground arith)
        ∙ overwrite-outside (flat strings) mem buffer (a + k) (inl (omega arith)))

-- Behind the call, the structure 8 bytes behind the entry point says where the arguments are and how
-- long they are, and that 40 bytes behind it the same of the environment.
pub pass_arguments-ArgvStruct :
    (argv_magic envp_magic : ℕ) (info : DolInfo) (args : List (List ℕ)) (mem : ℕ → ℕ)
    → info.entrypoint + 20 ≤ info.max_addr
    → ArgvStruct
        (pass_arguments argv_magic envp_magic info args mem)
        (info.entrypoint + 8)
        argv_magic
        (info.max_addr + 32)
        (length (flat args))
      × ArgvStruct
          (pass_arguments argv_magic envp_magic info args mem)
          (info.entrypoint + 40)
          envp_magic
          (info.max_addr + 32 + length (flat args) + 32)
          11
unfolding pass_arguments
pass_arguments-ArgvStruct argv_magic envp_magic info args mem low =
    let argz = info.max_addr + 32 in
    let first = setup_argv args argz (info.entrypoint + 8) argv_magic mem in
    let len : first.1 ≡ length (flat args) =
      setup_argv_len args argz (info.entrypoint + 8) argv_magic mem in
    let env = codes "CUBEBOOT=1" ∷ [] in
    let envz = argz + first.1 + 32 in
    let own = setup_argv-ArgvStruct args argz (info.entrypoint + 8) argv_magic mem in
    let kept = setup_argv-apart env envz (info.entrypoint + 40) envp_magic first.0 in
    (
      record {
        argv_magic = kept (info.entrypoint + 8) (omega arith) (inl (omega arith)) ∙ own.argv_magic;
        command_line =
            kept (info.entrypoint + 8 + 4) (omega arith) (inl (omega arith)) ∙ own.command_line;
        line_length =
            kept (info.entrypoint + 8 + 8) (omega arith) (inl (omega arith)) ∙ own.line_length;
      },
      rw (← len) (setup_argv-ArgvStruct env envz (info.entrypoint + 40) envp_magic first.0),
    )
