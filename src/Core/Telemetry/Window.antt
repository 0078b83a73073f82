-- ===== src/Core/Telemetry/Window.antt =====
-- The window of samples under a history of measurements.
use lado_flow.Base.{
  ℕ, suc, zero, ◌-◌, ◌≤◌, ◌<◌, ◌≡◌, refl, sym, ap, ◌∙◌, arith, List, [], ◌∷◌, ◌++◌, map, All,
  length, drop, length-append, length-drop, drop-append_le, drop-nil,
}
use lado_flow.Base.Time.{Duration, u64_max}
use lado_flow.Core.Telemetry.{LatencyAggregator, new_aggregator, as_micros, record_latency}
use native.Mathlib.Decide.{dec_lt}
use mathlib.Core.List.{append_assoc, append-nil}

unfoldable pub record_all : LatencyAggregator → List Duration → LatencyAggregator
record_all a [] = a
record_all a (d ∷ ds) = record_all (record_latency a d).0 ds

-- The last `n` elements.
abbrev pub latest : ℕ → List ℕ → List ℕ
latest n xs = drop (length xs - n) xs

abbrev IsRepresentable : Duration → Type 0
IsRepresentable d = as_micros d ≤ u64_max

drop-drop : (n : ℕ) (xs : List ℕ) → drop 1 (drop n xs) ≡ drop (suc n) xs
drop-drop zero [] = refl
drop-drop zero (x ∷ xs) = refl
drop-drop (suc n) [] = refl
drop-drop (suc n) (x ∷ xs) = drop-drop n xs

-- The window of a longer history, one sample at a time.
latest-append_full :
    (n : ℕ) (xs : List ℕ) (x : ℕ)
    → 0 < n
    → length (latest n xs) ≡ n
    → drop 1 (latest n xs) ++ (x ∷ []) ≡ latest n (xs ++ (x ∷ []))
latest-append_full n xs x pos full =
    let cut : length (xs ++ (x ∷ [])) - n ≡ suc (length xs - n) =
      omega (arith, length-append xs (x ∷ []), full, length-drop (length xs - n) xs) in
    ap (λ t. t ++ (x ∷ [])) (drop-drop (length xs - n) xs)
    ∙ sym (
        drop-append_le (suc (length xs - n)) xs (x ∷ [])
          (omega (arith, length-append xs (x ∷ []), full, length-drop (length xs - n) xs)))
    ∙ ap (λ t. drop t (xs ++ (x ∷ []))) (sym cut)

latest-append_room :
    (n : ℕ) (xs : List ℕ) (x : ℕ)
    → length (latest n xs) < n
    → latest n xs ++ (x ∷ []) ≡ latest n (xs ++ (x ∷ []))
latest-append_room n xs x room =
    let old : length xs - n ≡ 0 = omega (arith, length-drop (length xs - n) xs) in
    let new : length (xs ++ (x ∷ [])) - n ≡ 0 =
      omega (arith, length-append xs (x ∷ []), length-drop (length xs - n) xs) in
    ap (λ t. drop t xs ++ (x ∷ [])) old ∙ ap (λ t. drop t (xs ++ (x ∷ []))) (sym new)

record_latency_full :
    (a : LatencyAggregator) (d : Duration)
    → IsRepresentable d
    → length a.samples_micros ≡ a.capacity
    → ((record_latency a d).0.samples_micros ≡ drop 1 a.samples_micros ++ (as_micros d ∷ []))
      × ((record_latency a d).0.capacity ≡ a.capacity)
unfolding record_latency
record_latency_full a d h full = ground arith

record_latency_room :
    (a : LatencyAggregator) (d : Duration)
    → IsRepresentable d
    → length a.samples_micros < a.capacity
    → ((record_latency a d).0.samples_micros ≡ a.samples_micros ++ (as_micros d ∷ []))
      × ((record_latency a d).0.capacity ≡ a.capacity)
unfolding record_latency
record_latency_room a d h room = ground arith

-- One recorded sample moves the window one further along the history.
record_latency-latest :
    (a : LatencyAggregator) (past : List ℕ) (d : Duration)
    → 0 < a.capacity
    → IsRepresentable d
    → a.samples_micros ≡ latest a.capacity past
    → (record_latency a d).0.samples_micros ≡ latest a.capacity (past ++ (as_micros d ∷ []))
record_latency-latest a past d pos h e = elim (dec_lt (length a.samples_micros) a.capacity) [
  | yes room ↦
      (record_latency_room a d h room).0
      ∙ ap (λ t. t ++ (as_micros d ∷ [])) e
      ∙ latest-append_room a.capacity past (as_micros d) (omega (arith, ap length e))
  | no full ↦
      let whole : length a.samples_micros ≡ a.capacity =
        omega (arith, ap length e, length-drop (length past - a.capacity) past) in
      (record_latency_full a d h whole).0
      ∙ ap (λ t. drop 1 t ++ (as_micros d ∷ [])) e
      ∙ latest-append_full a.capacity past (as_micros d) pos (omega (arith, ap length e))
]

record_latency-capacity :
    (a : LatencyAggregator) (d : Duration) → (record_latency a d).0.capacity ≡ a.capacity
unfolding record_latency
record_latency-capacity a d = ground arith

record_all-latest :
    (a : LatencyAggregator) (past : List ℕ) (ds : List Duration)
    → 0 < a.capacity
    → All IsRepresentable ds
    → a.samples_micros ≡ latest a.capacity past
    → (record_all a ds).samples_micros ≡ latest a.capacity (past ++ map as_micros ds)
unfolding record_all
record_all-latest a past [] pos h e = e ∙ ap (latest a.capacity) (sym (append-nil past))
record_all-latest a past (d ∷ ds) pos h e =
    let same = record_latency-capacity a d in
    let moved = record_latency-latest a past d pos h.0 e in
    record_all-latest (record_latency a d).0 (past ++ (as_micros d ∷ [])) ds (rw same pos) h.1
      (rw same moved)
    ∙ ap (λ c. latest c ((past ++ (as_micros d ∷ [])) ++ map as_micros ds)) same
    ∙ ap (latest a.capacity) (append_assoc past (as_micros d ∷ []) (map as_micros ds))

-- After measurements whose microseconds fit a u64, a new window of a positive capacity holds the
-- last ones, as many as its capacity, in order of arrival.
pub record_all-new_aggregator :
    (capacity : ℕ) (ds : List Duration)
    → 0 < capacity
    → All (λ d. as_micros d ≤ u64_max) ds
    → (record_all (new_aggregator capacity) ds).samples_micros ≡ latest capacity (map as_micros ds)
unfolding new_aggregator
record_all-new_aggregator capacity ds pos h =
    record_all-latest (new_aggregator capacity) [] ds pos h (sym (drop-nil (0 - capacity)))

pub record IsValid (a : LatencyAggregator) : Type 0 where
  pub bounded : length a.samples_micros ≤ a.capacity
  pub representable : All (λ m. m ≤ u64_max) a.samples_micros

All-append_one :
    (xs : List ℕ) (x : ℕ)
    → All (λ m. m ≤ u64_max) xs
    → x ≤ u64_max
    → All (λ m. m ≤ u64_max) (xs ++ (x ∷ []))
All-append_one [] x a h = (h, tt)
All-append_one (y ∷ ys) x a h = (a.0, All-append_one ys x a.1 h)

All-drop_one : (xs : List ℕ) → All (λ m. m ≤ u64_max) xs → All (λ m. m ≤ u64_max) (drop 1 xs)
All-drop_one [] a = tt
All-drop_one (x ∷ xs) a = a.1

-- Recording keeps the window within its capacity and its samples within a u64, also when it
-- refuses the sample.
pub record_latency-IsValid :
    (a : LatencyAggregator) (d : Duration)
    → 0 < a.capacity
    → IsValid a
    → IsValid (record_latency a d).0
unfolding record_latency
record_latency-IsValid a d pos v = ground (
  arith,
  All-append_one a.samples_micros (as_micros d) v.representable,
  All-append_one (drop 1 a.samples_micros) (as_micros d)
      (All-drop_one a.samples_micros v.representable),
  length-append a.samples_micros (as_micros d ∷ []),
  length-append (drop 1 a.samples_micros) (as_micros d ∷ []),
  length-drop 1 a.samples_micros,
)
