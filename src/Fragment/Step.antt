-- ===== src/Fragment/Step.antt =====
-- What the code that reassembles does with one fragment.
use vfrs.Common.{
  ℕ, zero, suc, ◌+◌, ◌-◌, ◌^◌, ◌≤◌, ◌<◌, ◌≡◌, refl, sym, ap, ◌∙◌, Bool, true, false, not, ◌&&◌,
  List, [], ◌∷◌, ◌++◌, ltb, ==_refl, if◌then◌else◌, length, length-append, length-take, length-drop,
  take, drop, take-append, u64, u32, arith, le→not-ltb,
}
use vfrs.Frame.Addr.{get_addr_len}
use vfrs.Fragment.{
  ReasmCtx, Outcome, delivered, pending, stop, write_at, expire, write_fragment, frf12_hdr_len,
  fr_max_framesz, frf12_reasm_timeout_ms, next_seq, start_frame, continue_frame, reassemble_frame,
}
use vfrs.Fragment.Header.{
  take-written, length-written, drop-written, flag_b-written, flag_e-written, seq_of-written,
}

-- The three ways that a fragment goes, by its flags.
abbrev pub dispatch : ReasmCtx → List ℕ → Bool → Bool → ℕ → List ℕ → ℕ → Outcome × ReasmCtx
dispatch ctx address is_first is_last seq payload now_ms =
    if is_first && is_last
    then (delivered (address ++ payload), stop ctx)
    else if is_first && not is_last
    then start_frame ctx address payload seq now_ms
    else continue_frame ctx payload is_last seq now_ms

pub reassemble-written :
    (ctx : ReasmCtx) (address : List ℕ) (b e : Bool) (seq : ℕ) (payload : List ℕ) (now_ms : ℕ)
    → let written = write_fragment address b e seq payload in
      get_addr_len written (length written) ≡ length address
      → 2 ≤ length address
      → seq < 4096
      → reassemble_frame ctx written now_ms
        ≡ dispatch (expire ctx now_ms) address b e seq payload now_ms
unfolding reassemble_frame
reassemble-written ctx address b e seq payload now_ms known low small =
    let l = length-written address b e seq payload in
    let c1 : ltb (length address) 2 ≡ false = le→not-ltb (length address) 2 low in
    let c2 : ltb (length (write_fragment address b e seq payload)) (length address + frf12_hdr_len)
        ≡ false =
      le→not-ltb _ _ (omega arith) in
    rw (
      known,
      c1,
      c2,
      take-written address b e seq payload,
      drop-written address b e seq payload,
      flag_b-written address b e seq payload small,
      flag_e-written address b e seq payload small,
      seq_of-written address b e seq payload small,
    )

-- The context holds the first `upto` octets of a frame, and waits for the fragment `seq`.
pub record Holds (ctx : ReasmCtx) (frame : List ℕ) (upto seq now_ms : ℕ) : Type 0 where
  pub on : ctx.in_progress ≡ true
  pub len : ctx.len ≡ upto
  pub text : take upto ctx.buf ≡ take upto frame
  pub next : ctx.expected_seq ≡ seq
  pub last : ctx.last_frag_ms ≡ now_ms

take-write_at :
    (n : ℕ) (xs buf : List ℕ)
    → length (take n buf) ≡ n
    → take (n + length xs) (write_at n xs buf) ≡ take n buf ++ xs
take-write_at n xs buf l =
    let e : n + length xs ≡ length (take n buf ++ xs) =
      omega (arith, length-append (take n buf) xs) in
    ap (λ k. take k (write_at n xs buf)) e
    ∙ take-append (take n buf ++ xs) (drop (n + length xs) buf)

pub take-split : (n k : ℕ) (xs : List ℕ) → take n xs ++ take k (drop n xs) ≡ take (n + k) xs
take-split zero k xs = let e : k ≡ 0 + k = omega arith in ap (λ i. take i xs) e
take-split (suc n) k [] =
    let e : suc (n + k) ≡ suc n + k = omega arith in take-nil k ∙ ap (λ i. take i []) e
  where
    take-nil : (k : ℕ) → take {A = ℕ} k [] ≡ []
    take-nil zero = refl
    take-nil (suc k) = refl
take-split (suc n) k (x ∷ xs) =
    let e : suc (n + k) ≡ suc n + k = omega arith in
    ap (λ t. x ∷ t) (take-split n k xs) ∙ ap (λ i. take i (x ∷ xs)) e

-- The clock went on by no more than the timeout.
pub record Timely (before now : ℕ) : Type 0 where
  pub forward : before ≤ now
  pub soon : now ≤ before + frf12_reasm_timeout_ms
  pub fits : now < 2 ^ 64

expire-Timely :
    (ctx : ReasmCtx) (now_ms : ℕ) → Timely ctx.last_frag_ms now_ms → expire ctx now_ms ≡ ctx
unfolding expire
expire-Timely ctx now_ms t =
    let c : ltb frf12_reasm_timeout_ms (u64 (now_ms + 2 ^ 64 - ctx.last_frag_ms)) ≡ false =
      le→not-ltb _ _ (omega (arith, t.forward, t.soon, t.fits)) in
    rw c (off ctx.in_progress)
  where
    off : (b : Bool) → (if b && false then stop ctx else ctx) ≡ ctx
    off true = refl
    off false = refl

module _ (ctx : ReasmCtx) (frame : List ℕ) (len chunk seq now_ms : ℕ)
    (fits : len + chunk ≤ length frame) where
  abbrev payload : List ℕ
  payload = take chunk (drop len frame)

  length-payload : length payload ≡ chunk
  length-payload = omega (arith, length-take chunk (drop len frame), length-drop len frame)

  length-prefix : length (take len frame) ≡ len
  length-prefix = omega (arith, length-take len frame)

  -- A first fragment starts the frame over, whatever was held.
  pub start_frame-Holds :
      let (o, ctx') = start_frame ctx (take len frame) payload seq now_ms in
      (o ≡ pending) × Holds ctx' frame (len + chunk) (next_seq seq) now_ms
  unfolding start_frame
  start_frame-Holds =
      let first : take (length (take len frame)) (write_at 0 (take len frame) ctx.buf)
          ≡ take len frame =
        take-append (take len frame) (drop (0 + length (take len frame)) ctx.buf) in
      let both =
        take-write_at (length (take len frame)) payload (write_at 0 (take len frame) ctx.buf)
          (ap length first) in
      let total : len + chunk ≡ length (take len frame) + length payload =
        omega (arith, length-prefix, length-payload) in
      (
        refl,
        record {
          on = refl;
          len = sym total;
          text =
              ap (λ k. take k (start_frame ctx (take len frame) payload seq now_ms).1.buf) total
              ∙ both
              ∙ ap (λ t. t ++ payload) first
              ∙ take-split len chunk frame;
          next = refl;
          last = refl;
        },
      )

  module _ (before : ℕ) (h : Holds ctx frame len seq before) (t : Timely before now_ms)
      (small : len + chunk ≤ fr_max_framesz) where
    abbrev grown : ReasmCtx
    grown = record ctx {
      buf = write_at ctx.len payload ctx.buf;
      len = ctx.len + length payload;
      expected_seq = next_seq seq;
      last_frag_ms = now_ms;
      frag_count = u32 (ctx.frag_count + 1);
    }

    continued :
        (is_last : Bool)
        → continue_frame (expire ctx now_ms) payload is_last seq now_ms ≡ (
            if is_last
            then (delivered (take grown.len grown.buf), stop grown)
            else (pending, grown))
    unfolding continue_frame
    continued is_last =
        let same =
          expire-Timely ctx now_ms
            (record { forward = rw h.last t.forward; soon = rw h.last t.soon; fits = t.fits }) in
        let c : ltb fr_max_framesz (ctx.len + length payload) ≡ false =
          le→not-ltb _ _ (omega (arith, h.len, length-payload, small)) in
        rw (same, h.on, h.next, ==_refl seq, c)

    grown_text : take grown.len grown.buf ≡ take (len + chunk) frame
    grown_text =
        let e : take ctx.len ctx.buf ≡ take len frame = ap (λ k. take k ctx.buf) h.len ∙ h.text in
        let l : length (take ctx.len ctx.buf) ≡ ctx.len = ap length e ∙ length-prefix ∙ sym h.len in
        take-write_at ctx.len payload ctx.buf l
        ∙ ap (λ t. t ++ payload) e
        ∙ take-split len chunk frame

    grown_len : grown.len ≡ len + chunk
    grown_len = omega (arith, h.len, length-payload)

    pub continue_frame-more :
        let (o, ctx') = continue_frame (expire ctx now_ms) payload false seq now_ms in
        (o ≡ pending) × Holds ctx' frame (len + chunk) (next_seq seq) now_ms
    continue_frame-more = rw (continued false) (
      refl,
      record {
        on = h.on;
        len = grown_len;
        text = ap (λ k. take k grown.buf) (sym grown_len) ∙ grown_text;
        next = refl;
        last = refl;
      },
    )

    pub continue_frame-last :
        (continue_frame (expire ctx now_ms) payload true seq now_ms).0
        ≡ delivered (take (len + chunk) frame)
    continue_frame-last = rw (continued true) (ap delivered grown_text)
