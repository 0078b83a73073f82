-- ===== src/Desktop/Modes/Selection.antt =====
-- The mode that is selected fits both sides and is a best one of the ladder.
use mathlib.Core.Path.{subst}
use mathlib.Core.List.{Memᴰ}
use lado_flow.Base.{
  ◌≤◌, ◌<◌, ◌≡◌, refl, sym, arith, ◌⊎◌, inl, inr, List, [], ◌∷◌, All, true, false, Bool-cases, ok,
  ◌&&◌, leb,
}
use lado_flow.Desktop.Modes.{
  Mode, landscape_modes, is_eligible, eligible, min_from, min_by_fit, found_mode,
  select_bounded_display_dimensions,
}
use lado_flow.Desktop.Modes.Fit.{AtLeastAsGood, min_from_any, min_from-AtLeastAsGood}

-- No wider or taller than the bound.
abbrev pub Within : Mode → Mode → Type 0
Within bound m = (m.0 ≤ bound.0) × (m.1 ≤ bound.1)

-- A mode that cannot serve the request: too large for a side, or of the other orientation.
abbrev pub Unfit : Mode → Mode → Mode → Type 0
Unfit requested limit m =
    (requested.0 < m.0)
    ⊎ ((requested.1 < m.1)
        ⊎ ((limit.0 < m.0)
            ⊎ ((limit.1 < m.1)
                ⊎ (((requested.1 ≤ requested.0) × (m.0 < m.1))
                    ⊎ ((requested.0 < requested.1) × (m.1 ≤ m.0))))))

-- The same orientation, where a square counts as landscape.
abbrev pub SameOrientation : Mode → Mode → Type 0
SameOrientation requested m =
    ((requested.1 ≤ requested.0) × (m.1 ≤ m.0)) ⊎ ((requested.0 < requested.1) × (m.0 < m.1))

-- A mode of the ladder that can serve the request, and that no other such mode beats.
pub record IsBest (requested limit mode : Mode) : Type 0 where
  pub member : Memᴰ mode landscape_modes
  pub within_request : Within requested mode
  pub within_limit : Within limit mode
  pub orientation : SameOrientation requested mode
  pub best : All (λ m. AtLeastAsGood requested mode m ⊎ Unfit requested limit m) landscape_modes

-- The mode of a session: the request where it is within the limit, and a best mode of the ladder
-- where it is not.
abbrev pub IsSelected : Mode → Mode → Mode → Type 0
IsSelected requested limit mode =
    (Within limit requested × (mode ≡ requested))
    ⊎ (¬ Within limit requested × IsBest requested limit mode)

pub IsSelected-Within :
    (requested limit mode : Mode)
    → IsSelected requested limit mode
    → Within requested mode × Within limit mode
IsSelected-Within requested limit mode (inl (fits, e)) = ground arith
IsSelected-Within requested limit mode (inr (over, b)) = (b.within_request, b.within_limit)

eligible-or-Unfit :
    (requested limit m : Mode)
    → (is_eligible requested limit m ≡ true)
      ⊎ (Unfit requested limit m × (is_eligible requested limit m ≡ false))
eligible-or-Unfit requested limit m = ground arith

-- A mode of a list that can serve the request.
abbrev Serves : Mode → Mode → List Mode → Mode → Type 0
Serves requested limit ms m =
    Memᴰ m ms × Within requested m × Within limit m × SameOrientation requested m

eligible_Serves :
    (requested limit m : Mode) (ms : List Mode)
    → is_eligible requested limit m ≡ true
    → Memᴰ m ms
    → Serves requested limit ms m
eligible_Serves requested limit m ms e member = (member, ground arith, ground arith, ground arith)

eligible_kept :
    (requested limit m : Mode) (ms : List Mode)
    → is_eligible requested limit m ≡ true
    → eligible requested limit (m ∷ ms) ≡ m ∷ eligible requested limit ms
unfolding eligible
eligible_kept requested limit m ms e = rw e refl

eligible_dropped :
    (requested limit m : Mode) (ms : List Mode)
    → is_eligible requested limit m ≡ false
    → eligible requested limit (m ∷ ms) ≡ eligible requested limit ms
unfolding eligible
eligible_dropped requested limit m ms e = rw e refl

All-eligible :
    (P : Mode → Type 0) (requested limit : Mode) (ms : List Mode)
    → All P ms
    → All P (eligible requested limit ms)
unfolding eligible
All-eligible P requested limit [] a = tt
All-eligible P requested limit (m ∷ ms) a = elim (eligible-or-Unfit requested limit m) [
  | inl e ↦ rw e (a.0, All-eligible P requested limit ms a.1)
  | inr (u, e) ↦ rw e (All-eligible P requested limit ms a.1)
]

Serves-eligible :
    (requested limit : Mode) (all ms : List Mode)
    → ((m : Mode) → Memᴰ m ms → Memᴰ m all)
    → All (Serves requested limit all) (eligible requested limit ms)
unfolding eligible
Serves-eligible requested limit all [] sub = tt
Serves-eligible requested limit all (m ∷ ms) sub = elim (eligible-or-Unfit requested limit m) [
  | inl e ↦ rw e (
    eligible_Serves requested limit m all e (sub m (Memᴰ.head refl)),
    Serves-eligible requested limit all ms (λ n i. sub n (Memᴰ.tail i)),
  )
  | inr (u, e) ↦ rw e (Serves-eligible requested limit all ms (λ n i. sub n (Memᴰ.tail i)))
]

-- What holds of the eligible modes holds of every mode that is not unfit.
All_of_eligible :
    (P : Mode → Type 0) (requested limit : Mode) (ms : List Mode)
    → All P (eligible requested limit ms)
    → All (λ m. P m ⊎ Unfit requested limit m) ms
unfolding eligible
All_of_eligible P requested limit [] a = tt
All_of_eligible P requested limit (m ∷ ms) a = elim (eligible-or-Unfit requested limit m) [
  | inl e ↦
      let both = subst (All P) (eligible_kept requested limit m ms e) a in
      (inl both.0, All_of_eligible P requested limit ms both.1)
  | inr (u, e) ↦ (
    inr u,
    All_of_eligible P requested limit ms
        (subst (All P) (eligible_dropped requested limit m ms e) a),
  )
]

abbrev IsTall : Mode → Type 0
IsTall m = 0 < m.1

ladder-IsTall : All IsTall landscape_modes
ladder-IsTall = omega arith

-- What the search returns among the eligible modes of a list.
found-IsBest :
    (requested limit mode : Mode) (ms : List Mode)
    → eligible requested limit landscape_modes ≡ ms
    → found_mode (min_by_fit requested ms) ≡ ok mode
    → IsBest requested limit mode
unfolding found_mode min_by_fit
found-IsBest requested limit mode [] e h = absurd (ground arith)
found-IsBest requested limit mode (m ∷ ms) e h =
    let serve = Serves requested limit landscape_modes in
    let serves =
      subst (All serve) e
        (Serves-eligible requested limit landscape_modes landscape_modes (λ n i. i)) in
    let tall =
      subst (All IsTall) e (All-eligible IsTall requested limit landscape_modes ladder-IsTall) in
    let best = min_from requested m ms in
    let is_best : best ≡ mode = ground arith in
    let (member, in_request, in_limit, same) =
      min_from_any requested serve m ms serves.0 serves.1 in
    let good = min_from-AtLeastAsGood requested m ms tall.0 tall.1 in
    let all = subst (All (AtLeastAsGood requested best)) (sym e) good in
    subst (IsBest requested limit) is_best (record {
      member = member;
      within_request = in_request;
      within_limit = in_limit;
      orientation = same;
      best = All_of_eligible (AtLeastAsGood requested best) requested limit landscape_modes all;
    })

pub select-IsSelected :
    (requested limit mode : Mode)
    → select_bounded_display_dimensions requested limit ≡ ok mode
    → IsSelected requested limit mode
unfolding select_bounded_display_dimensions
select-IsSelected requested limit mode e =
    elim (Bool-cases (leb requested.0 limit.0 && leb requested.1 limit.1)) [
      | inl fits ↦ inl (ground arith)
      | inr over ↦ inr (
        ground arith,
        found-IsBest requested limit mode (eligible requested limit landscape_modes) refl
            (ground arith),
      )
    ]
