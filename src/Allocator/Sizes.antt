-- ===== src/Allocator/Sizes.antt =====
-- The size that Malloc chooses, and the list that it takes a block from.
use native.Mathlib.Nat.{pow-suc, dvd_trans, dvd-mul_right, dvd_of_mod-eq-zero, mod-eq-zero_of_dvd}
use native.Mathlib.Numerals.{towards_suc}
use docker_macos.Base.{
  ℕ, zero, suc, ◌+◌, ◌*◌, ◌%◌, ◌^◌, ◌≤◌, ◌<◌, ◌≡◌, refl, sym, ap, ◌∙◌, ◌≢◌, ◌⊎◌, inl, inr, none,
  some, arith, ltb, leb, ◌==◌, Bool-cases,
}
use docker_macos.Base.Mem.{Mem}
use docker_macos.Allocator.{num_sizes, our_null, first_size, size_bits}

pub first_size-none :
    (fuel bits : ℕ) (lists : Mem)
    → first_size fuel bits lists ≡ none
    → (s : ℕ) → bits ≤ s
    → s < bits + fuel
    → lists s ≡ our_null
unfolding first_size
first_size-none zero bits lists e s lo hi = absurd (omega arith)
first_size-none (suc fuel) bits lists e s lo hi = elim (Bool-cases (lists bits == our_null)) [
  | inr found ↦ absurd (let f : some bits ≡ none = rw found at e in cc)
  | inl empty ↦ elim (Bool-cases (s == bits)) [
    | inl same ↦ let q : s ≡ bits = ground arith in ap lists q ∙ ground arith
    | inr other ↦
        first_size-none fuel (bits + 1) lists (rw empty at e) s (ground arith) (omega arith)
  ]
]

pub first_size-some :
    (fuel bits : ℕ) (lists : Mem) (r : ℕ)
    → first_size fuel bits lists ≡ some r
    → (bits ≤ r) × (r < bits + fuel) × (lists r ≢ our_null)
unfolding first_size
first_size-some zero bits lists r e = absurd (let f : none ≡ some r = e in cc)
first_size-some (suc fuel) bits lists r e = elim (Bool-cases (lists bits == our_null)) [
  | inr found ↦
      let f : some bits ≡ some r = rw found at e in
      let g : bits ≡ r = cc in (omega arith, omega arith, λ h. ground arith)
  | inl empty ↦
      let (a, b, c) = first_size-some fuel (bits + 1) lists r (rw empty at e) in
      (omega arith, omega arith, c)
]

pub pow_le : (b k : ℕ) → 2 ^ b ≤ 2 ^ (b + k)
pow_le b zero = let same : b + zero ≡ b = omega arith in rw same (omega arith)
pow_le b (suc k) =
    let next : b + suc k ≡ suc (b + k) = omega arith in
    let e = pow-suc 2 (b + k) in let h = pow_le b k in rw next (omega arith)

-- The smallest size that holds a number of bytes.
abbrev pub Fits : (bytes bits : ℕ) → Type 0
Fits bytes bits = (bytes ≤ 2 ^ bits * 4096) × ((bits ≡ 0) ⊎ (2 ^ bits * 4096 < 2 * bytes))

double : (bits size : ℕ) → size ≡ 2 ^ bits * 4096 → size * 2 ≡ 2 ^ (bits + 1) * 4096
double bits size e = simp towards_suc (let p = pow-suc 2 bits in omega arith)

pub size_bits_lem :
    (fuel size bits bytes : ℕ)
    → size ≡ 2 ^ bits * 4096
    → bits + fuel ≡ num_sizes + 1
    → (bits ≡ 0) ⊎ (2 ^ bits * 4096 < 2 * bytes)
    → bits ≤ num_sizes
    → ((b : ℕ) × (size_bits fuel size bits bytes ≡ some b) × (b ≤ num_sizes) × Fits bytes b)
      ⊎ ((size_bits fuel size bits bytes ≡ none) × (2 ^ num_sizes * 4096 < bytes))
unfolding size_bits
size_bits_lem zero size bits bytes e f m le = absurd (omega arith)
size_bits_lem (suc fuel) size bits bytes e f m le = elim (Bool-cases (ltb size bytes)) [
  | inr enough ↦ inl (bits, rw enough refl, le, (ground arith, m))
  | inl short ↦ elim (Bool-cases (leb num_sizes bits)) [
    | inl top ↦
        let t : bits ≡ num_sizes = ground arith in
        inr (
          rw (short, top) refl,
          (let s : size ≡ 2 ^ num_sizes * 4096 = e ∙ ap (λ k. 2 ^ k * 4096) t in ground arith),
        )
    | inr below ↦
        let p = pow-suc 2 bits in
        rw (short, below)
          (size_bits_lem fuel (size * 2) (bits + 1) bytes (double bits size e) (omega arith)
            (inr (simp towards_suc (ground arith))) (ground arith))
  ]
]

mod_half : (n p : ℕ) → n % (p * 2) ≡ 0 → n % p ≡ 0
mod_half n p e =
    mod-eq-zero_of_dvd p (dvd_trans p (dvd-mul_right p 2) (dvd_of_mod-eq-zero (p * 2) e))

pub mod_lower : (n b k : ℕ) → n % 2 ^ (b + k) ≡ 0 → n % 2 ^ b ≡ 0
mod_lower n b zero e = let same : b + zero ≡ b = omega arith in rw same at e
mod_lower n b (suc k) e =
    let next : b + suc k ≡ suc (b + k) = omega arith in
    mod_lower n b k
      (mod_half n (2 ^ (b + k)) (ap (λ t. n % t) (sym (pow-suc 2 (b + k))) ∙ rw next at e))
