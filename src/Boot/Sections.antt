-- ===== src/Boot/Sections.antt =====
-- What one of the two loops over sections in load_dol of patches/source/boot.c leaves in memory.
use cubiboot.Base.{
  ℕ, zero, suc, ◌+◌, ◌-◌, ◌≤◌, ◌<◌, Bool, true, false, not, ◌&&◌, ◌==◌, ltb, leb, if◌then◌else◌,
  ◌≡◌, refl, arith, inl, inr, Bool-cases, span, ◌∙◌,
}
use cubiboot.Cache.Device.{overwrite}
use cubiboot.Boot.{Loader, load_sections}

-- Whether a section that is there holds the byte at an address.
abbrev pub covers : (ℕ → ℕ) → (ℕ → ℕ) → ℕ → ℕ → Bool
covers address size i a =
    (not (address i == 0) && not (size i == 0)) && (leb (address i) a && ltb a (address i + size i))

overwrite-span :
    (mem file : ℕ → ℕ) (n at from a : ℕ)
    → overwrite mem at (span file from n) a
      ≡ (if leb at a && ltb a (at + n) then file (from + (a - at)) else mem a)
overwrite-span mem file zero at from a = ground arith
overwrite-span mem file (suc n) at from a = elim (Bool-cases (at == a)) [
  | inl e ↦ (let same : from + (a - at) ≡ from = ground (arith, e) in rw same (ground (arith, e)))
  | inr e ↦ elim (Bool-cases (ltb at a)) [
    | inl above ↦
        (let same : from + 1 + (a - (at + 1)) ≡ from + (a - at) = ground (arith, above) in
          let rest = overwrite-span mem file n (at + 1) (from + 1) a in
          rw e (rest ∙ rw same (ground (arith, above))))
    | inr below ↦
        (let rest = overwrite-span mem file n (at + 1) (from + 1) a in
          rw e (rest ∙ ground (arith, below, e)))
  ]
]

module _ {World : Type 0} (loader : Loader World) (offset fd : ℕ) (file : ℕ → ℕ)
    (reads : (n from : ℕ) (w : World) → (loader.read_at n from fd w).0 ≡ span file from n)
    (address size from : ℕ → ℕ) (a : ℕ) where
  -- What the loop makes of the byte at `a`.
  pub record Loaded (left i : ℕ) (mem result : ℕ → ℕ) : Type 0 where
    pub untouched :
        ((j : ℕ) → i ≤ j → j < i + left → covers address size j a ≡ false) → result a ≡ mem a
    pub last :
        (k : ℕ)
        → i ≤ k
        → k < i + left
        → covers address size k a ≡ true
        → ((j : ℕ) → k < j → j < i + left → covers address size j a ≡ false)
        → result a ≡ file (offset + from k + (a - address k))

  not_there :
      (i : ℕ)
      → (not (address i == 0) && not (size i == 0)) ≡ false
      → covers address size i a ≡ true
      → false ≡ true
  not_there i gone c = ground (arith, gone, c)

  outside :
      (i : ℕ) (mem : ℕ → ℕ)
      → (not (address i == 0) && not (size i == 0)) ≡ true
      → covers address size i a ≡ false
      → (if leb (address i) a && ltb a (address i + size i)
          then file (offset + from i + (a - address i))
          else mem a)
        ≡ mem a
  outside i mem there c = ground (arith, there, c)

  inside :
      (i : ℕ) (mem : ℕ → ℕ)
      → (not (address i == 0) && not (size i == 0)) ≡ true
      → covers address size i a ≡ true
      → (if leb (address i) a && ltb a (address i + size i)
          then file (offset + from i + (a - address i))
          else mem a)
        ≡ file (offset + from i + (a - address i))
  inside i mem there c = ground (arith, there, c)

  pub load_sections_lem :
      (left i : ℕ) (mem : ℕ → ℕ) (w : World)
      → Loaded left i mem (load_sections loader offset fd address size from left i mem w).0
  unfolding load_sections
  load_sections_lem zero i mem w = record {
    untouched = λ none_there. refl;
    last = λ k lo hi c later. absurd (omega (arith, lo, hi));
  }
  load_sections_lem (suc left) i mem w =
      elim (Bool-cases (not (address i == 0) && not (size i == 0))) [
        | inr gone ↦
            (let rest = load_sections_lem left (i + 1) mem w in
              rw gone (record {
                untouched = λ free.
                    rest.untouched (λ j lo hi. free j (omega (arith, lo)) (omega (arith, hi)));
                last = λ k lo hi c later. elim (Bool-cases (k == i)) [
                  | inl e ↦
                      (let same : k ≡ i = ground (arith, e) in cc (not_there i gone (rw same at c)))
                  | inr e ↦
                      rest.last k (ground (arith, e, lo)) (omega (arith, hi)) c
                        (λ j l h. later j l (omega (arith, h)))
                ];
              }))
        | inl there ↦
            (let got = loader.read_at (size i) (offset + from i) fd w in
              let rest = load_sections_lem left (i + 1) (overwrite mem (address i) got.0) got.1 in
              let written : overwrite mem (address i) got.0 a ≡ (
                  if leb (address i) a && ltb a (address i + size i)
                  then file (offset + from i + (a - address i))
                  else mem a) =
                rw (reads (size i) (offset + from i) w)
                  (overwrite-span mem file (size i) (address i) (offset + from i) a) in
              rw there (record {
                untouched = λ free.
                    rest.untouched (λ j lo hi. free j (omega (arith, lo)) (omega (arith, hi)))
                    ∙ (written ∙ outside i mem there (free i (omega arith) (omega arith)));
                last = λ k lo hi c later. elim (Bool-cases (k == i)) [
                  | inl e ↦
                      (let same : k ≡ i = ground (arith, e) in
                        rw same (
                          rest.untouched
                            (λ j l h. later j (omega (arith, l, same)) (omega (arith, h)))
                          ∙ (written ∙ inside i mem there (rw same at c))))
                  | inr e ↦
                      rest.last k (ground (arith, e, lo)) (omega (arith, hi)) c
                        (λ j l h. later j l (omega (arith, h)))
                ];
              }))
      ]
