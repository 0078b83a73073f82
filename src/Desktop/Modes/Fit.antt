-- ===== src/Desktop/Modes/Fit.antt =====
-- The comparison of modes by their fit is a total preorder, and `min_by` takes a best one.
use native.Mathlib.Nat.{
  mul_right_comm, mul-le-mul_right, mul-lt-mul_of_pos_right, le_of_mul-le-mul_right,
  lt_of_mul-lt-mul_right,
}
use mathlib.Core.Path.{subst}
use lado_flow.Base.{ℕ, ◌*◌, ◌≤◌, ◌<◌, ◌≡◌, refl, sym, arith, ◌⊎◌, inl, inr, List, [], ◌∷◌, All}
use lado_flow.Desktop.Modes.{Mode, aspect_delta, area, compare_mode_fit, smaller, min_from}

-- The ratios a / b ≤ c / d ≤ e / f, cross-multiplied.
cross_le : (a b c d e f : ℕ) → 0 < d → a * d ≤ c * b → c * f ≤ e * d → a * f ≤ e * b
cross_le a b c d e f h p q =
    le_of_mul-le-mul_right {m = a * f} {n = e * b} {k = d}
      (omega (
        arith,
        mul_right_comm a f d,
        mul_right_comm c b f,
        mul_right_comm e d b,
        mul-le-mul_right f p,
        mul-le-mul_right b q,
      ))
      h

cross_lt : (a b c d e f : ℕ) → 0 < f → a * d < c * b → c * f ≤ e * d → a * f < e * b
cross_lt a b c d e f h p q = lt_of_mul-lt-mul_right d {m = a * f} {n = e * b} (
    omega (
      arith,
      mul_right_comm a f d,
      mul_right_comm c b f,
      mul_right_comm e d b,
      mul-lt-mul_of_pos_right p h,
      mul-le-mul_right b q,
    ))

cross_le_lt : (a b c d e f : ℕ) → 0 < b → a * d ≤ c * b → c * f < e * d → a * f < e * b
cross_le_lt a b c d e f h p q = lt_of_mul-lt-mul_right d {m = a * f} {n = e * b} (
    omega (
      arith,
      mul_right_comm a f d,
      mul_right_comm c b f,
      mul_right_comm e d b,
      mul-le-mul_right f p,
      mul-lt-mul_of_pos_right q h,
    ))

module _ (requested : Mode) where
  -- `m` keeps the aspect of the request at least as well as `n`, relative to its height, and with
  -- as many pixels where both keep it equally well.
  abbrev pub AtLeastAsGood : Mode → Mode → Type 0
  AtLeastAsGood m n =
      (aspect_delta requested m * n.1 < aspect_delta requested n * m.1)
      ⊎ ((aspect_delta requested m * n.1 ≡ aspect_delta requested n * m.1) × (area n ≤ area m))

  AtLeastAsGood-refl : (m : Mode) → AtLeastAsGood m m
  AtLeastAsGood-refl m = inr (refl, omega arith)

  AtLeastAsGood-trans :
      (m n k : Mode)
      → 0 < m.1
      → 0 < n.1
      → 0 < k.1
      → AtLeastAsGood m n
      → AtLeastAsGood n k
      → AtLeastAsGood m k
  AtLeastAsGood-trans m n k hm hn hk (inl p) (inl q) = inl (
      cross_lt (aspect_delta requested m) m.1 (aspect_delta requested n) n.1
        (aspect_delta requested k) k.1 hk p (omega arith))
  AtLeastAsGood-trans m n k hm hn hk (inl p) (inr q) = inl (
      cross_lt (aspect_delta requested m) m.1 (aspect_delta requested n) n.1
        (aspect_delta requested k) k.1 hk p (omega arith))
  AtLeastAsGood-trans m n k hm hn hk (inr p) (inl q) = inl (
      cross_le_lt (aspect_delta requested m) m.1 (aspect_delta requested n) n.1
        (aspect_delta requested k) k.1 hm (omega arith) q)
  AtLeastAsGood-trans m n k hm hn hk (inr p) (inr q) = inr (
    omega (
      arith,
      cross_le (aspect_delta requested m) m.1 (aspect_delta requested n) n.1
          (aspect_delta requested k) k.1 hn (omega arith) (omega arith),
      cross_le (aspect_delta requested k) k.1 (aspect_delta requested n) n.1
          (aspect_delta requested m) m.1 hn (omega arith) (omega arith),
    ),
    omega arith,
  )

  -- What a step of the search keeps.
  smaller-AtLeastAsGood :
      (best m : Mode)
      → ((smaller requested best m ≡ m) × AtLeastAsGood m best)
        ⊎ ((smaller requested best m ≡ best) × AtLeastAsGood best m)
  unfolding smaller compare_mode_fit
  smaller-AtLeastAsGood best m = ground arith

  pub min_from_any :
      (P : Mode → Type 0) (best : Mode) (ms : List Mode)
      → P best
      → All P ms
      → P (min_from requested best ms)
  unfolding min_from
  min_from_any P best [] p a = p
  min_from_any P best (m ∷ ms) p a = elim (smaller-AtLeastAsGood best m) [
    | inl (e, g) ↦ min_from_any P (smaller requested best m) ms (subst P (sym e) a.0) a.1
    | inr (e, g) ↦ min_from_any P (smaller requested best m) ms (subst P (sym e) p) a.1
  ]

  abbrev IsTall : Mode → Type 0
  IsTall m = 0 < m.1

  All_trans :
      (r m : Mode) (ms : List Mode)
      → IsTall r
      → IsTall m
      → All IsTall ms
      → AtLeastAsGood r m
      → All (AtLeastAsGood m) ms
      → All (AtLeastAsGood r) ms
  All_trans r m [] hr hm hs g a = tt
  All_trans r m (n ∷ ms) hr hm hs g a =
      (AtLeastAsGood-trans r m n hr hm hs.0 g a.0, All_trans r m ms hr hm hs.1 g a.1)

  pub min_from-AtLeastAsGood :
      (best : Mode) (ms : List Mode)
      → IsTall best
      → All IsTall ms
      → let r = min_from requested best ms in AtLeastAsGood r best × All (AtLeastAsGood r) ms
  unfolding min_from
  min_from-AtLeastAsGood best [] h hs = (AtLeastAsGood-refl best, tt)
  min_from-AtLeastAsGood best (m ∷ ms) h hs = elim (smaller-AtLeastAsGood best m) [
    | inl (e, g) ↦
        let r = min_from requested (smaller requested best m) ms in
        let tall = subst IsTall (sym e) hs.0 in
        let rest = min_from-AtLeastAsGood (smaller requested best m) ms tall hs.1 in
        let to_m = subst (AtLeastAsGood r) e rest.0 in
        (
          AtLeastAsGood-trans r m best (min_from_any IsTall (smaller requested best m) ms tall hs.1)
              hs.0 h to_m g,
          (to_m, rest.1),
        )
    | inr (e, g) ↦
        let r = min_from requested (smaller requested best m) ms in
        let tall = subst IsTall (sym e) h in
        let rest = min_from-AtLeastAsGood (smaller requested best m) ms tall hs.1 in
        let to_best = subst (AtLeastAsGood r) e rest.0 in
        (
          to_best,
          (
            AtLeastAsGood-trans r best m
                (min_from_any IsTall (smaller requested best m) ms tall hs.1) h hs.0 to_best g,
            rest.1,
          ),
        )
  ]
