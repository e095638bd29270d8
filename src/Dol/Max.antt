-- ===== src/Dol/Max.antt =====
-- `DOLMax` is the greatest end of a section.
use cubiboot.Base.{
  ℕ, zero, suc, ◌+◌, ◌≤◌, ◌<◌, true, false, not, ◌&&◌, ◌≡◌, ◌≢◌, refl, ◌⊎◌, inl, inr, Bool-cases,
  ==_iff, arith, ltb, ◌==◌, sym, subst, ◌∙◌, ap,
}
use cubiboot.Dol.{DolHeader, end_of, raise, sections, dol_max, max_text_section, max_data_section}

-- `e` is the end of a section that is there.
pub data SectionEnd (dol : DolHeader) (e : ℕ) : Type 0 where
  text :
      (i : ℕ)
      → i < max_text_section
      → dol.text_address i ≢ 0
      → dol.text_length i ≢ 0
      → end_of (dol.text_address i) (dol.text_length i) ≡ e
      → SectionEnd dol e
  data_section :
      (i : ℕ)
      → i < max_data_section
      → dol.data_address i ≢ 0
      → dol.data_length i ≢ 0
      → end_of (dol.data_address i) (dol.data_length i) ≡ e
      → SectionEnd dol e
  bss : dol.bss_address ≢ 0 → end_of dol.bss_address dol.bss_length ≡ e → SectionEnd dol e

-- What the loop makes of `m`: no less, no less than the end of a section there, and one of these.
record Greatest (address length : ℕ → ℕ) (left i m r : ℕ) : Type 0 where
  above : m ≤ r
  bounds :
      (j : ℕ)
      → i ≤ j
      → j < i + left
      → address j ≢ 0
      → length j ≢ 0
      → end_of (address j) (length j) ≤ r
  attained :
      (r ≡ m)
      ⊎ ((j : ℕ) × (i ≤ j)
          × (j < i + left)
          × (address j ≢ 0)
          × (length j ≢ 0)
          × (end_of (address j) (length j) ≡ r))

skip_lem :
    (address length : ℕ → ℕ) (i j : ℕ)
    → (not (address i == 0) && not (length i == 0)) ≡ false
    → j ≡ i
    → address j ≢ 0
    → length j ≢ 0
    → ⊥
skip_lem address length i j gone z a l =
    let a' : address i ≢ 0 = λ q. a (ap address z ∙ q) in
    let l' : length i ≢ 0 = λ q. l (ap length z ∙ q) in ground arith

raise-cases : (m e : ℕ) → (raise m e ≡ e) ⊎ (raise m e ≡ m)
raise-cases m e = elim (Bool-cases (ltb m e)) [ inl h ↦ inl (rw h) | inr h ↦ inr (rw h) ]

-- A section that is there, in front of the rest.
Greatest-take :
    (address length : ℕ → ℕ) (left i m r : ℕ)
    → (not (address i == 0) && not (length i == 0)) ≡ true
    → Greatest address length left (i + 1) (raise m (end_of (address i) (length i))) r
    → Greatest address length (suc left) i m r
Greatest-take address length left i m r here g =
    let up = g.above in
    let lo : m ≤ raise m (end_of (address i) (length i)) = ground arith in
    let own : end_of (address i) (length i) ≤ raise m (end_of (address i) (length i)) =
      ground arith in
    record {
      above = omega arith;
      bounds = λ j from to a l. elim (Bool-cases (i == j)) [
        | inl e ↦ subst (λ k. end_of (address k) (length k) ≤ r) ((==_iff i j).0 e) (omega arith)
        | inr e ↦
            (let far : i ≢ j = λ z. ground arith in g.bounds j (omega arith) (omega arith) a l)
      ];
      attained = elim g.attained [
        | inl e ↦ elim (raise-cases m (end_of (address i) (length i))) [
          | inl q ↦ inr (i, omega arith, omega arith, ground arith, ground arith, sym (e ∙ q))
          | inr q ↦ inl (e ∙ q)
        ]
        | inr (j, from, to, a, l, e) ↦ inr (j, omega arith, omega arith, a, l, e)
      ];
    }

-- A section that is not there, in front of the rest.
Greatest-skip :
    (address length : ℕ → ℕ) (left i m r : ℕ)
    → (not (address i == 0) && not (length i == 0)) ≡ false
    → Greatest address length left (i + 1) m r
    → Greatest address length (suc left) i m r
Greatest-skip address length left i m r gone g = record {
  above = g.above;
  bounds = λ j from to a l. elim (Bool-cases (i == j)) [
    | inl e ↦ absurd (skip_lem address length i j gone (sym ((==_iff i j).0 e)) a l)
    | inr e ↦ (let far : i ≢ j = λ z. ground arith in g.bounds j (omega arith) (omega arith) a l)
  ];
  attained = elim g.attained [
    | inl e ↦ inl e
    | inr (j, from, to, a, l, e) ↦ inr (j, omega arith, omega arith, a, l, e)
  ];
}

sections-Greatest :
    (address length : ℕ → ℕ) (left i m : ℕ)
    → Greatest address length left i m (sections address length left i m)
unfolding sections
sections-Greatest address length zero i m = record {
  above = omega arith;
  bounds = λ j lo hi. absurd (omega arith);
  attained = inl refl;
}
sections-Greatest address length (suc left) i m =
    elim (Bool-cases (not (address i == 0) && not (length i == 0))) [
      | inl here ↦ rw here (
          Greatest-take address length left i m _ here (
            sections-Greatest address length left (i + 1)
              (raise m (end_of (address i) (length i)))))
      | inr gone ↦ rw gone (
          Greatest-skip address length left i m _ gone
            (sections-Greatest address length left (i + 1) m))
    ]

abbrev text_max : DolHeader → ℕ
text_max dol = sections dol.text_address dol.text_length max_text_section 0 0

abbrev data_max : DolHeader → ℕ
data_max dol = sections dol.data_address dol.data_length max_data_section 0 (text_max dol)

-- `DOLMax` is no less than the end, in 32 bits, of any section that is there: a text or data section
-- with an address and a length, or a BSS with an address.
pub dol_max_bound : (dol : DolHeader) (e : ℕ) → SectionEnd dol e → e ≤ dol_max dol
unfolding dol_max
dol_max_bound dol e (text i lt a l q) =
    let g = sections-Greatest dol.text_address dol.text_length max_text_section 0 0 in
    let h = sections-Greatest dol.data_address dol.data_length max_data_section 0 (text_max dol) in
    let b = g.bounds i (omega arith) (omega arith) a l in let up = h.above in ground arith
dol_max_bound dol e (data_section i lt a l q) =
    let h = sections-Greatest dol.data_address dol.data_length max_data_section 0 (text_max dol) in
    let b = h.bounds i (omega arith) (omega arith) a l in ground arith
dol_max_bound dol e (bss a q) = ground arith

text_attained : (dol : DolHeader) → (text_max dol ≡ 0) ⊎ SectionEnd dol (text_max dol)
text_attained dol =
    elim (sections-Greatest dol.text_address dol.text_length max_text_section 0 0).attained [
      | inl e ↦ inl e
      | inr (j, from, to, a, l, e) ↦ inr (text j (omega arith) a l e)
    ]

data_attained : (dol : DolHeader) → (data_max dol ≡ 0) ⊎ SectionEnd dol (data_max dol)
data_attained dol =
    elim (sections-Greatest dol.data_address dol.data_length max_data_section 0
      (text_max dol)).attained [
        | inl e ↦ elim (text_attained dol) [
          | inl z ↦ inl (e ∙ z)
          | inr h ↦ inr (subst (SectionEnd dol) (sym e) h)
        ]
        | inr (j, from, to, a, l, e) ↦ inr (data_section j (omega arith) a l e)
      ]

-- `DOLMax` is 0 or the end of a section that is there.
dol_max_attained : (dol : DolHeader) → (dol_max dol ≡ 0) ⊎ SectionEnd dol (dol_max dol)
unfolding dol_max
dol_max_attained dol = elim (Bool-cases (dol.bss_address == 0)) [
  | inl none_there ↦ rw none_there (data_attained dol)
  | inr there ↦
      rw there
        (elim (raise-cases (data_max dol) (end_of dol.bss_address dol.bss_length))
          as (λ _.
            (raise (data_max dol) (end_of dol.bss_address dol.bss_length) ≡ 0)
            ⊎ SectionEnd dol (raise (data_max dol) (end_of dol.bss_address dol.bss_length))) [
              | inl q ↦ inr (bss (ground arith) (sym q))
              | inr q ↦ subst (λ t. (t ≡ 0) ⊎ SectionEnd dol t) (sym q) (data_attained dol)
            ])
]
