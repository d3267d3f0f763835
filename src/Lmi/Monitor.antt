-- ===== src/Lmi/Monitor.antt =====
-- The history masks of the two sides are windows on the events: the errors counted in them are those
-- among the last N393.
use vfrs.Common.{
  ℕ, zero, suc, ◌+◌, ◌-◌, ◌*◌, ◌/◌, ◌%◌, ◌^◌, ◌≤◌, ◌<◌, ◌≡◌, ◌↔◌, ◌⊎◌, inl, inr, min, ◌∙◌, refl,
  sym, ap, Bool, true, false, List, [], ◌∷◌, bit_or, ◌==◌, ==_iff, if◌then◌else◌, ◌>>>◌, ◌<<<◌,
  arith,
}
use vfrs.Common.Bits.{all_below, all_below_sound, bit_or-add, bit_and_mask}
use vfrs.Common.Bits.Halves.{halve-mod, halve-shift, low_bit}
use vfrs.Frame.Addr.Octets.{low_1}
use native.Mathlib.Nat.{pow-succ', one-le-pow, mod-lt, mod-eq_of_lt, div-eq_of_lt, pow-le-pow_right}
use vfrs.Lmi.Poll.{shift_in, count_errors}

abbrev digit : Bool → ℕ
digit true = 1
digit false = 0

-- The errors among the last `n` events, the newest first. Before the first event all are errors.
unfoldable pub errors_in : ℕ → List Bool → ℕ
errors_in zero events = 0
errors_in (suc n) [] = suc (errors_in n [])
errors_in (suc n) (error ∷ events) = digit error + errors_in n events

-- The history of a window of `n` events.
unfoldable pub history_of : ℕ → List Bool → ℕ
unfolding shift_in
history_of n [] = 0xFFFF
history_of n (error ∷ events) = shift_in n error (history_of n events)

digit-lt : (error : Bool) → digit error < 2
digit-lt true = omega arith
digit-lt false = omega arith

entered : (error : Bool) (h : ℕ) → bit_or (h <<< 1) (if error then 1 else 0) ≡ 2 * h + digit error
entered true h = bit_or-add 1 (h * 2) 1 (omega arith) (omega arith) ∙ omega arith
entered false h = bit_or-add 1 (h * 2) 0 (omega arith) (omega arith) ∙ omega arith

shift_in_lem :
    (n : ℕ) (error : Bool) (h : ℕ) → n ≤ 16 → shift_in n error h ≡ (2 * h + digit error) % 2 ^ n
unfolding shift_in
shift_in_lem n error h l =
    let e = 2 * h + digit error in
    let positive = one-le-pow n 2 in
    let small : e % 2 ^ n < 2 ^ 16 =
      omega (arith, mod-lt e {m = 2 ^ n} (omega arith), pow-le-pow_right {n = 2} (omega arith) l) in
    rw (entered error h, bit_and_mask n e (2 ^ n - 1) (omega arith)) (mod-eq_of_lt small)

-- The lowest bit is the new event, and the others are moved up.
shift_in-bit :
    (m n : ℕ) (error : Bool) (h : ℕ)
    → m < n
    → suc n ≤ 16
    → shift_in (suc n) error h / 2 ^ suc m % 2 ≡ h / 2 ^ m % 2
shift_in-bit m n error h k l =
    let x = shift_in (suc n) error h in
    let half : x / 2 ≡ h % 2 ^ n = omega (
      arith,
      digit-lt error,
      shift_in_lem (suc n) error h l,
      halve-mod n (2 * h + digit error),
      ap (λ t. t % 2 ^ n) halved,
    ) in
    ap (λ s. s % 2) (halve-shift m x ∙ ap (λ s. s / 2 ^ m) half) ∙ low_bit n m h k
  where
    halved : (2 * h + digit error) / 2 ≡ h
    halved = omega (arith, digit-lt error)

le-cases : (a b : ℕ) → (a ≤ b) ⊎ (b < a)
le-cases a b = ground arith

count_errors-suc : (n h : ℕ) → count_errors (suc n) h ≡ h / 2 ^ n % 2 + count_errors n h
unfolding count_errors
count_errors-suc n h = rw (low_1 (h >>> n)) (ground arith)

count_errors-shift_in :
    (m n : ℕ) (error : Bool) (h : ℕ)
    → m ≤ n
    → suc n ≤ 16
    → count_errors (suc m) (shift_in (suc n) error h) ≡ digit error + count_errors m h
unfolding count_errors
count_errors-shift_in zero n error h k l =
    let x = shift_in (suc n) error h in
    omega (
      arith,
      digit-lt error,
      count_errors-suc 0 x,
      shift_in_lem (suc n) error h l,
      halve-mod n (2 * h + digit error),
    )
count_errors-shift_in (suc m) n error h k l =
    let x = shift_in (suc n) error h in
    omega (
      arith,
      count_errors-shift_in m n error h (omega arith) l,
      count_errors-suc (suc m) x,
      count_errors-suc m h,
      shift_in-bit m n error h k l,
    )

count_errors-full : (m : ℕ) → m ≤ 16 → count_errors m 0xFFFF ≡ m
unfolding count_errors all_below
count_errors-full m h =
    (==_iff _ _).0 (all_below_sound 17 (λ m. count_errors m 0xFFFF == m) m refl (omega arith))

errors_in-none : (m : ℕ) → errors_in m [] ≡ m
unfolding errors_in
errors_in-none zero = refl
errors_in-none (suc m) = ap suc (errors_in-none m)

-- The history counts what the last events say, for every window of at most 16 events.
pub count_errors-history :
    (m n : ℕ) (events : List Bool)
    → m ≤ n
    → n ≤ 16
    → count_errors m (history_of n events) ≡ errors_in m events
unfolding history_of errors_in count_errors
count_errors-history m n [] k l = count_errors-full m (omega arith) ∙ sym (errors_in-none m)
count_errors-history zero n (error ∷ events) k l = refl
count_errors-history (suc m) (suc n) (error ∷ events) k l =
    count_errors-shift_in m n error (history_of (suc n) events) (omega arith) l
    ∙ ap (λ t. digit error + t) (count_errors-history m (suc n) events (omega arith) l)
count_errors-history (suc m) zero (error ∷ events) k l = omega arith

-- A history has no errors beyond its window.
count_errors-beyond : (m n h : ℕ) → n ≤ m → h < 2 ^ n → count_errors m h ≡ count_errors n h
count_errors-beyond zero zero h k l = refl
count_errors-beyond zero (suc n) h k l = absurd (omega arith)
count_errors-beyond (suc m) n h k l = elim (le-cases n m) [
  | inl le ↦
      let small : h < 2 ^ m = omega (arith, pow-le-pow_right {n = 2} (omega arith) le) in
      omega (
        arith,
        count_errors-suc m h,
        ap (λ t. t % 2) (div-eq_of_lt small),
        count_errors-beyond m n h le l,
      )
  | inr gt ↦ ap (λ t. count_errors t h) (omega (arith, k, gt))
]

-- After an event the history counts, of any number of bits, those within its window.
pub count_errors-min :
    (m n : ℕ) (error : Bool) (events : List Bool)
    → n ≤ 16
    → count_errors m (history_of n (error ∷ events)) ≡ errors_in (min m n) (error ∷ events)
unfolding history_of
count_errors-min m n error events l = elim (le-cases m n) [
  | inl le ↦
      count_errors-history m n (error ∷ events) le l
      ∙ ap (λ t. errors_in t (error ∷ events)) (omega (arith, le))
  | inr gt ↦
      let h = history_of n events in
      let inside : shift_in n error h < 2 ^ n = omega (
        arith,
        shift_in_lem n error h l,
        mod-lt (2 * h + digit error) {m = 2 ^ n} (omega (arith, one-le-pow n 2)),
      ) in
      count_errors-beyond m n (shift_in n error h) (omega (arith, gt)) inside
      ∙ count_errors-history n n (error ∷ events) (omega arith) l
      ∙ ap (λ t. errors_in t (error ∷ events)) (omega (arith, gt))
]

-- The low bits by the highest of them.
top_bit : (m h : ℕ) → h % 2 ^ suc m ≡ h / 2 ^ m % 2 * 2 ^ m + h % 2 ^ m
top_bit zero h = omega arith
top_bit (suc m) h =
    let q = h / 2 ^ suc m % 2 in
    omega (
      arith,
      halve-mod (suc m) h,
      halve-mod m h,
      top_bit m (h / 2),
      ap (λ t. t % 2 * 2 ^ m) (halve-shift m h),
      ap (λ (t : ℕ). q * t) (pow-succ' 2 m),
    )

no_top : (b k r : ℕ) → 0 < k → (b * k + r ≡ 0) ↔ ((b ≡ 0) × (r ≡ 0))
no_top zero k r l = ground arith
no_top (suc b) k r l = ground arith

-- The mask of the recovery holds no error exactly when there is none among as many events.
pub mask-count_errors : (m h : ℕ) → (h % 2 ^ m ≡ 0) ↔ (count_errors m h ≡ 0)
unfolding count_errors
mask-count_errors zero h = ground arith
mask-count_errors (suc m) h =
    let b = h / 2 ^ m % 2 in
    let split = no_top b (2 ^ m) (h % 2 ^ m) (omega (arith, one-le-pow m 2)) in
    let top = top_bit m h in
    let counted = count_errors-suc m h in
    let rest = mask-count_errors m h in
    (
      (λ e. let s = split.0 (sym top ∙ e) in counted ∙ omega (arith, s.0, rest.0 s.1)),
      (λ e.
          let none_left : count_errors m h ≡ 0 = omega (arith, counted, e) in
          top ∙ split.1 (omega (arith, counted, e), rest.1 none_left)),
    )
