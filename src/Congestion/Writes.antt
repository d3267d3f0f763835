-- ===== src/Congestion/Writes.antt =====
-- Congestion by failed writes.
use vfrs.Common.{
  ℕ, zero, suc, ◌+◌, ◌^◌, ◌<◌, ◌≡◌, refl, sym, ap, ap₂, ◌∙◌, inl, inr, true, false, ◌||◌,
  Bool-cases, ltb, leb, u32, arith,
}
use vfrs.Congestion.{CgstState, handle_write_failure, handle_write_success, set_congested}

-- `n` writes fail, at the times `clock 0`, `clock 1`, …
pub failures : CgstState → ℕ → (ℕ → ℕ) → CgstState
failures cgst zero clock = cgst
failures cgst (suc n) clock = handle_write_failure (failures cgst n clock) (clock n)

-- After `n` failures from a clear state.
record Failed (cgst : CgstState) (n : ℕ) (cgst' : CgstState) : Type 0 where
  count : cgst'.write_failure_count ≡ n
  limit : cgst'.write_failure_threshold ≡ cgst.write_failure_threshold
  state : cgst'.congested ≡ leb cgst.write_failure_threshold n

-- One failure.
record Counts (s s' : CgstState) : Type 0 where
  count : s'.write_failure_count ≡ u32 (s.write_failure_count + 1)
  limit : s'.write_failure_threshold ≡ s.write_failure_threshold
  state :
      s'.congested
      ≡ (leb s.write_failure_threshold (u32 (s.write_failure_count + 1)) || s.congested)

failure-Counts :
    (s : CgstState) (now : ℕ)
    → 0 < s.write_failure_threshold
    → Counts s (handle_write_failure s now)
unfolding handle_write_failure set_congested
failure-Counts s now positive =
    let p : ltb 0 s.write_failure_threshold ≡ true = ground arith in
    elim (Bool-cases (leb s.write_failure_threshold (u32 (s.write_failure_count + 1)))) [
      | inl e ↦ elim (Bool-cases s.congested) [
        | inl c ↦
            rw (p, e, c)
              (record { count = refl; limit = refl; state = sym (ap (λ b. b || true) e) })
        | inr c ↦
            rw (p, e, c)
              (record { count = refl; limit = refl; state = sym (ap (λ b. b || false) e) })
      ]
      | inr e ↦
          rw (p, e)
            (record { count = refl; limit = refl; state = sym (ap (λ b. b || s.congested) e) })
    ]

failures-Failed :
    (cgst : CgstState) (clock : ℕ → ℕ) (n : ℕ)
    → 0 < cgst.write_failure_threshold
    → n < 2 ^ 32
    → cgst.congested ≡ false
    → cgst.write_failure_count ≡ 0
    → Failed cgst n (failures cgst n clock)
unfolding failures
failures-Failed cgst clock zero positive fits clear none = record {
  count = none;
  limit = refl;
  state = ground arith;
}
failures-Failed cgst clock (suc n) positive fits clear none =
    let ih = failures-Failed cgst clock n positive (omega arith) clear none in
    let one = failure-Counts (failures cgst n clock) (clock n) (omega (arith, ih.limit)) in
    record {
      count = omega (arith, one.count, ih.count);
      limit = one.limit ∙ ih.limit;
      state =
          one.state
          ∙ ap₂ (λ t k. leb t (u32 (k + 1)) || (failures cgst n clock).congested) ih.limit ih.count
          ∙ ap (λ c. leb cgst.write_failure_threshold (u32 (n + 1)) || c) ih.state
          ∙ grow (omega arith);
    }
  where
    grow :
        u32 (n + 1) ≡ suc n
        → (leb cgst.write_failure_threshold (u32 (n + 1)) || leb cgst.write_failure_threshold n)
          ≡ leb cgst.write_failure_threshold (suc n)
    grow e = ground arith

success-clears :
    (s : CgstState) (now : ℕ)
    → 0 < s.write_failure_threshold
    → (s.write_failure_count ≡ 0 → s.congested ≡ false)
    → ((handle_write_success s now).congested ≡ false)
      × ((handle_write_success s now).write_failure_count ≡ 0)
unfolding handle_write_success set_congested
success-clears s now positive idle =
    let p : ltb 0 s.write_failure_threshold ≡ true = ground arith in
    elim (Bool-cases (ltb 0 s.write_failure_count)) [
      | inl e ↦ elim (Bool-cases s.congested) [
        | inl c ↦ rw (p, e, c) (refl, refl)
        | inr c ↦ rw (p, e, c) (refl, refl)
      ]
      | inr e ↦ let z : s.write_failure_count ≡ 0 = ground arith in rw (p, e) (idle z, z)
    ]

-- From a clear state with a threshold and no failure counted, `n < 2^32` failed writes in a row
-- leave the port congested exactly if they reach the threshold, and one write that succeeds after
-- at least one failure clears it.
pub failures-congested :
    (cgst : CgstState) (clock : ℕ → ℕ) (n now : ℕ)
    → 0 < cgst.write_failure_threshold
    → n < 2 ^ 32
    → cgst.congested ≡ false
    → cgst.write_failure_count ≡ 0
    → ((failures cgst n clock).congested ≡ leb cgst.write_failure_threshold n)
      × ((handle_write_success (failures cgst n clock) now).congested ≡ false)
      × ((handle_write_success (failures cgst n clock) now).write_failure_count ≡ 0)
failures-congested cgst clock n now positive fits clear none =
    let f = failures-Failed cgst clock n positive fits clear none in
    let (calm, reset) =
      success-clears (failures cgst n clock) now (omega (arith, f.limit))
        (λ e. f.state ∙ at_zero (sym f.count ∙ e)) in
    (f.state, calm, reset)
  where
    at_zero : n ≡ 0 → leb cgst.write_failure_threshold n ≡ false
    at_zero e = ground arith
