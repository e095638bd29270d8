-- ===== src/Cache/Sound/Limit.antt =====
-- How far a direct transfer of the block cache goes.
use Prim.Native.Nat.{min}
use cubiboot.Base.{
  ℕ, ◌+◌, ◌-◌, ◌%◌, ◌^◌, ◌<◌, ◌≤◌, Bool, false, Option, none, some, List, ◌≡◌, ◌≢◌, inr, ◌==◌,
  arith, In,
}
use cubiboot.Cache.Links.Search.{Clear, Clear-at}
use cubiboot.Cache.Links.{empty_page}
use cubiboot.Cache.Sound.{Valid, Known}
use cubiboot.Cache.State.{lba_mod, uint_mod, page_of}

-- A transfer of `far` sectors from `first` makes progress, stays within the request, stops before
-- the next cached page, and leaves the search's answer valid behind it.
pub record Reaches (b : ℕ → ℕ) (xs : List ℕ) (first num : ℕ) (p : Option ℕ) (sb far : ℕ)
    : Type 0 where
  pub forward : 0 < far
  pub within : far ≤ num
  pub known : 0 < num - far → Known b xs (page_of (first + far)) p sb
  pub lim : ℕ
  pub clear : Clear b xs (page_of first) lim
  pub before : first + far ≤ lim

pub limit_lem :
    (b : ℕ → ℕ) (xs : List ℕ) (first num : ℕ) (p : Option ℕ) (sb : ℕ)
    → ((j : ℕ) → In j xs → b j ≢ empty_page → (b j % 4 ≡ 0) × (b j < 2 ^ 32))
    → Valid b xs (page_of first) p sb
    → (elim p as (λ _. Bool) [ none ↦ false | some i ↦ b i == page_of first ]) ≡ false
    → first + num ≤ 2 ^ 32
    → 0 < num
    → Reaches b xs first num p sb (
        min num (elim p as (λ _. ℕ) [
          | none ↦ num
          | some i ↦ (b i + lba_mod - first) % lba_mod % uint_mod
        ]))
limit_lem b xs first num none sb placed v h bound pos = record {
  forward = omega arith;
  within = omega arith;
  known = λ k. absurd (omega arith);
  lim = empty_page;
  clear = v.1;
  before = omega arith;
}
limit_lem b xs first num (some i) sb placed v h bound pos = record {
  forward = omega (arith, distance, above);
  within = omega arith;
  known = λ k.
      let here : page_of (first + min num ((b i + lba_mod - first) % lba_mod % uint_mod)) ≡ b i =
        omega (arith, distance, above, at.0) in
      inr (v.0, (v.1.0, omega (arith, here), v.1.2, rw here (Clear-at b xs (b i))));
  lim = b i;
  clear = v.1.3;
  before = omega (arith, distance, above);
}
  where
    at : (b i % 4 ≡ 0) × (b i < 2 ^ 32)
    at = let used = v.1.2 in placed i v.1.0 (omega arith)

    above : first < b i
    above = let below = v.1.1 in ground (arith, at.0)

    distance : (b i + lba_mod - first) % lba_mod % uint_mod ≡ b i - first
    distance = omega (arith, at.0, at.1, above)
