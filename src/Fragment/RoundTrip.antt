-- ===== src/Fragment/RoundTrip.antt =====
-- The fragments of a frame, taken in order, give the frame back.
use vfrs.Common.{
  ℕ, zero, suc, ◌+◌, ◌-◌, ◌*◌, ◌≤◌, ◌<◌, ◌≡◌, refl, sym, ap, ap₂, ◌∙◌, inl, inr, Bool, true, false,
  Bool-cases, some, List, [], ◌∷◌, ◌++◌, bit_and, ltb, leb, ◌==◌, if◌then◌else◌, length,
  length-take, take, take_all, take-append-drop, drop, replicate, arith, le→not-ltb, lt→ltb, le→leb,
  lt→not-leb,
}
use native.Mathlib.Nat.{suc-mul}
use vfrs.Common.Bits.{bit_and_mask}
use vfrs.Frame.Addr.{get_addr_len}
use vfrs.Frame.Addr.Length.{get_addr_len-prefix}
use vfrs.Fragment.{
  ReasmCtx, Outcome, delivered, pending, expire, write_fragment, fr_max_framesz, next_seq,
  fragment_from, fragment_frame, reassemble_frame,
}
use vfrs.Fragment.Header.{length-written, next_seq_lem}
use vfrs.Fragment.Step.{
  reassemble-written, Holds, Timely, start_frame-Holds, continue_frame-more, continue_frame-last,
}

-- The answers to fragments that are taken in order, the one at place `i` when `clock` reads `clock
-- i`.
pub feed : ReasmCtx → List (List ℕ) → (ℕ → ℕ) → ℕ → List Outcome
feed ctx [] clock i = []
feed ctx (frag ∷ frags) clock i =
    let (o, ctx') = reassemble_frame ctx frag (clock i) in o ∷ feed ctx' frags clock (i + 1)

feed-nil : (ctx : ReasmCtx) (clock : ℕ → ℕ) (i : ℕ) → feed ctx [] clock i ≡ []
unfolding feed
feed-nil ctx clock i = refl

feed-cons :
    (ctx : ReasmCtx) (frag : List ℕ) (frags : List (List ℕ)) (clock : ℕ → ℕ) (i : ℕ)
    → feed ctx (frag ∷ frags) clock i
      ≡ (reassemble_frame ctx frag (clock i)).0
        ∷ feed (reassemble_frame ctx frag (clock i)).1 frags clock (i + 1)
unfolding feed
feed-cons ctx frag frags clock i = refl

seq_small : (seq : ℕ) → bit_and seq 0x0FFF < 4096
seq_small seq = omega (arith, bit_and_mask 12 seq 0x0FFF refl)

seq_follows : (seq : ℕ) → next_seq (bit_and seq 0x0FFF) ≡ bit_and (next_seq seq) 0x0FFF
seq_follows seq = omega (
  arith,
  next_seq_lem (bit_and seq 0x0FFF),
  next_seq_lem seq,
  bit_and_mask 12 seq 0x0FFF refl,
  bit_and_mask 12 (next_seq seq) 0x0FFF refl,
)

module _ (frame : List ℕ) (len size : ℕ) where
  abbrev payload_len : ℕ
  payload_len = length frame - len

  abbrev chunk_at : ℕ → ℕ
  chunk_at offset = if ltb size (payload_len - offset) then size else payload_len - offset

  abbrev frag_at : ℕ → ℕ → List ℕ
  frag_at offset seq =
      write_fragment (take len frame) (offset == 0) (leb payload_len (offset + chunk_at offset))
        (bit_and seq 0x0FFF) (take (chunk_at offset) (drop (len + offset) frame))

  fragment_from-step :
      (room offset seq : ℕ)
      → offset < payload_len
      → (fragment_from frame len size (suc room) offset seq).0
        ≡ frag_at offset seq
          ∷ (fragment_from frame len size room (offset + chunk_at offset) (next_seq seq)).0
  unfolding fragment_from
  fragment_from-step room offset seq h = rw (lt→ltb offset payload_len h)

  fragment_from-end :
      (room offset seq : ℕ)
      → payload_len ≤ offset
      → (fragment_from frame len size room offset seq).0 ≡ []
  unfolding fragment_from
  fragment_from-end zero offset seq h = refl
  fragment_from-end (suc room) offset seq h = rw (le→not-ltb offset payload_len h)

  module _ (known : get_addr_len frame (length frame) ≡ len) (low : 2 ≤ len)
      (more : len < length frame) where
    address-written :
        (b e : Bool) (seq : ℕ) (payload : List ℕ)
        → let written = write_fragment (take len frame) b e seq payload in
          get_addr_len written (length written) ≡ length (take len frame)
    unfolding write_fragment
    address-written b e seq payload =
        let l : length (take len frame) ≡ len = omega (arith, length-take len frame) in
        get_addr_len-prefix frame _ len (length frame)
          (length (write_fragment (take len frame) b e seq payload)) known low more (omega arith)
          (omega (arith, length-written (take len frame) b e seq payload, l))
        ∙ sym l

    -- The whole frame has been sent after the last chunk.
    all_sent :
        (offset : ℕ)
        → offset < payload_len
        → take (len + offset + (payload_len - offset)) frame ≡ frame
    all_sent offset h = take_all (len + offset + (payload_len - offset)) frame (omega arith)

    module _ (positive : 0 < size) (fits : length frame ≤ fr_max_framesz) (clock : ℕ → ℕ)
        (turns : ℕ) (timely : (i : ℕ) → i < turns → Timely (clock i) (clock (i + 1))) where
      abbrev Finishes : List Outcome → Type 0
      Finishes outcomes = (k : ℕ) × (outcomes ≡ replicate k pending ++ delivered frame ∷ [])

      Finishes-cons :
          (o : Outcome) (os : List Outcome) → o ≡ pending → Finishes os → Finishes (o ∷ os)
      Finishes-cons o os e (k, f) = (suc k, ap₂ ◌∷◌ e f)

      module _ (offset seq : ℕ) (ctx : ReasmCtx) (i : ℕ) (started : 0 < offset)
          (more_left : offset < payload_len) (turn : i < turns)
          (h : Holds ctx frame (len + offset) (bit_and seq 0x0FFF) (clock i)) where
        abbrev answer : Outcome × ReasmCtx
        answer = reassemble_frame ctx (frag_at offset seq) (clock (i + 1))

        not_first : (offset == 0) ≡ false
        not_first = ground arith

        address_kept : 2 ≤ length (take len frame)
        address_kept = omega (arith, length-take len frame)

        middle-Holds :
            ltb size (payload_len - offset) ≡ true
            → (answer.0 ≡ pending)
              × Holds answer.1 frame
                  (len + (offset + chunk_at offset))
                  (bit_and (next_seq seq) 0x0FFF)
                  (clock (i + 1))
        middle-Holds c =
            let e : leb payload_len (offset + size) ≡ false =
              lt→not-leb payload_len (offset + size) (ground arith) in
            let split : len + offset + size ≡ len + (offset + size) = omega arith in
            let bound : len + offset + size ≤ length frame = ground arith in
            rw
              (
                c,
                not_first,
                e,
                reassemble-written ctx (take len frame) false false (bit_and seq 0x0FFF)
                    (take size (drop (len + offset) frame)) (clock (i + 1))
                    (address-written _ _ _ _) address_kept (seq_small seq),
                ← seq_follows seq,
                ← split,
              )
              (continue_frame-more ctx frame (len + offset) size (bit_and seq 0x0FFF)
                (clock (i + 1)) bound (clock i) h (timely i turn) (omega arith))

        last-delivered : ltb size (payload_len - offset) ≡ false → answer.0 ≡ delivered frame
        last-delivered c =
            let e : leb payload_len (offset + (payload_len - offset)) ≡ true =
              le→leb payload_len (offset + (payload_len - offset)) (omega arith) in
            let bound : len + offset + (payload_len - offset) ≤ length frame = omega arith in
            rw
              (
                c,
                not_first,
                e,
                reassemble-written ctx (take len frame) false true (bit_and seq 0x0FFF)
                    (take (payload_len - offset) (drop (len + offset) frame)) (clock (i + 1))
                    (address-written _ _ _ _) address_kept (seq_small seq),
              )
              (continue_frame-last ctx frame (len + offset) (payload_len - offset)
                  (bit_and seq 0x0FFF) (clock (i + 1)) bound (clock i) h (timely i turn)
                  (omega arith)
                ∙ ap delivered (all_sent offset more_left))

      -- With `len + offset` octets held, the fragments from `offset` on complete the frame.
      rest-Finishes :
          (room offset seq : ℕ) (ctx : ReasmCtx) (i : ℕ)
          → 0 < offset
          → offset < payload_len
          → payload_len - offset ≤ room * size
          → i + room ≤ turns
          → Holds ctx frame (len + offset) (bit_and seq 0x0FFF) (clock i)
          → Finishes (feed ctx (fragment_from frame len size room offset seq).0 clock (i + 1))
      rest-Finishes zero offset seq ctx i started left enough time h = absurd (omega arith)
      rest-Finishes (suc room) offset seq ctx i started left enough time h =
          let next = answer offset seq ctx i started left (omega arith) h in
          rw
            (
              fragment_from-step room offset seq left,
              feed-cons ctx (frag_at offset seq)
                  (fragment_from frame len size room (offset + chunk_at offset) (next_seq seq)).0
                  clock (i + 1),
            )
            (elim (Bool-cases (ltb size (payload_len - offset))) [
              | inl c ↦
                  let (p, h') = middle-Holds offset seq ctx i started left (omega arith) h c in
                  Finishes-cons next.0 _ p (
                    rest-Finishes room (offset + chunk_at offset) (next_seq seq) next.1 (i + 1)
                      (omega arith) (ground arith) (ground (arith, suc-mul room size)) (omega arith)
                      h')
              | inr c ↦
                  let d = last-delivered offset seq ctx i started left (omega arith) h c in
                  let e : payload_len ≤ offset + chunk_at offset = ground arith in
                  rw (fragment_from-end room (offset + chunk_at offset) (next_seq seq) e)
                    (0, ap₂ ◌∷◌ d (feed-nil next.1 clock (i + 1 + 1)))
            ])

      module _ (seq : ℕ) (ctx : ReasmCtx) where
        first-Holds :
            size < payload_len
            → let r = reassemble_frame ctx (frag_at 0 seq) (clock 0) in
              (r.0 ≡ pending)
              × Holds r.1 frame (len + (0 + chunk_at 0)) (bit_and (next_seq seq) 0x0FFF) (clock 0)
        first-Holds more_left =
            let c : ltb size (payload_len - 0) ≡ true =
              lt→ltb size (payload_len - 0) (omega arith) in
            let e : leb payload_len (0 + size) ≡ false =
              lt→not-leb payload_len (0 + size) (omega arith) in
            let split : len + size ≡ len + (0 + size) = omega arith in
            let z : len ≡ len + 0 = omega arith in
            let bound : len + size ≤ length frame = omega arith in
            rw
              (
                c,
                e,
                reassemble-written ctx (take len frame) true false (bit_and seq 0x0FFF)
                    (take size (drop (len + 0) frame)) (clock 0) (address-written _ _ _ _)
                    (omega (arith, length-take len frame)) (seq_small seq),
                ← seq_follows seq,
                ← split,
                ← z,
              )
              (start_frame-Holds (expire ctx (clock 0)) frame len size (bit_and seq 0x0FFF)
                (clock 0) bound)

        many-Finishes :
            (max_frags : ℕ)
            → size < payload_len
            → payload_len ≤ max_frags * size
            → max_frags ≤ turns
            → Finishes (feed ctx (fragment_from frame len size max_frags 0 seq).0 clock 0)
        many-Finishes zero h enough time = absurd (omega arith)
        many-Finishes (suc room) h enough time =
            let (p, h') = first-Holds h in
            let c : ltb size (payload_len - 0) ≡ true =
              lt→ltb size (payload_len - 0) (omega arith) in
            let grown : size ≡ 0 + chunk_at 0 = rw c (omega arith) in
            rw
              (
                fragment_from-step room 0 seq (omega arith),
                feed-cons ctx (frag_at 0 seq)
                    (fragment_from frame len size room (0 + chunk_at 0) (next_seq seq)).0 clock 0,
              )
              (Finishes-cons _ _ p (
                rest-Finishes room (0 + chunk_at 0) (next_seq seq)
                  (reassemble_frame ctx (frag_at 0 seq) (clock 0)).1 0 (omega arith) (omega arith)
                  (omega (arith, suc-mul room size)) (omega arith) h'))

        single-Finishes : Finishes (
            feed ctx
              (write_fragment (take len frame) true true (bit_and seq 0x0FFF) (drop len frame) ∷ [])
              clock
              0)
        single-Finishes =
            let r =
              reassemble-written ctx (take len frame) true true (bit_and seq 0x0FFF)
                (drop len frame) (clock 0) (address-written _ _ _ _)
                (omega (arith, length-take len frame)) (seq_small seq) in
            rw (feed-cons ctx _ [] clock 0, feed-nil _ clock (0 + 1), r)
              (0, ap (λ t. delivered t ∷ []) (take-append-drop len frame))

positive_left : (m n : ℕ) → 0 < m * n → leb m 0 ≡ false
positive_left zero n h = absurd (omega arith)
positive_left (suc m) n h = lt→not-leb (suc m) 0 (omega arith)

-- What is sent of a frame with an address and a payload, if fragments have a size.
abbrev pub sent : List ℕ → ℕ → ℕ → ℕ → List (List ℕ)
sent frame size max_frags seq =
    let len = get_addr_len frame (length frame) in
    if leb (length frame - len) size
    then write_fragment (take len frame) true true (bit_and seq 0x0FFF) (drop len frame) ∷ []
    else (fragment_from frame len size max_frags 0 seq).0

pub fragment_frame-sent :
    (frame : List ℕ) (size max_frags seq : ℕ)
    → let len = get_addr_len frame (length frame) in
      2 ≤ len
      → len < length frame
      → 0 < size
      → leb max_frags 0 ≡ false
      → (fragment_frame frame size max_frags seq).0 ≡ some (sent frame size max_frags seq)
unfolding fragment_frame
fragment_frame-sent frame size max_frags seq low more positive room =
    let len = get_addr_len frame (length frame) in
    let c1 : ltb (length frame) 2 ≡ false = le→not-ltb _ _ (omega arith) in
    let c2 : ltb len 2 ≡ false = le→not-ltb _ _ low in
    let c3 : ltb (length frame) len ≡ false = le→not-ltb _ _ (omega arith) in
    let c4 : (length frame - len == 0) ≡ false = ground arith in
    let c5 : (size == 0) ≡ false = ground arith in
    rw (room, c1, c2, c3, c4, c5)
      (elim (Bool-cases (leb (length frame - len) size)) [ inl e ↦ rw e | inr e ↦ rw e ])

-- Whatever the context holds: fragments of a frame of at most 1600 octets with a complete address
-- and a payload, taken in order by a clock that goes on by at most the timeout each time, are
-- all accepted; the last one delivers exactly the frame, and no one before it completes a frame.
-- `max_frags` fragments of `fragment_size` octets, which is not 0, have to hold
-- the payload.
pub feed-fragment_frame :
    (frame : List ℕ) (fragment_size max_frags seq : ℕ) (ctx : ReasmCtx) (clock : ℕ → ℕ)
    → let addr_len = get_addr_len frame (length frame) in
      2 ≤ addr_len
      → addr_len < length frame
      → length frame ≤ fr_max_framesz
      → 0 < fragment_size
      → length frame - addr_len ≤ max_frags * fragment_size
      → ((i : ℕ) → i < max_frags → Timely (clock i) (clock (i + 1)))
      → (frags : List (List ℕ)) × (k : ℕ) × ((fragment_frame frame fragment_size max_frags seq).0
          ≡ some frags)
        × (feed ctx frags clock 0 ≡ replicate k pending ++ delivered frame ∷ [])
feed-fragment_frame frame size max_frags seq ctx clock low more fits positive enough timely =
    let room = positive_left max_frags size (omega arith) in
    let (k, f) = finishes in
    (
      sent frame size max_frags seq,
      k,
      fragment_frame-sent frame size max_frags seq low more positive room,
      f,
    )
  where
    finishes :
        (k : ℕ) × (feed ctx (sent frame size max_frags seq) clock 0
          ≡ replicate k pending ++ delivered frame ∷ [])
    finishes = elim (Bool-cases (leb (length frame - get_addr_len frame (length frame)) size)) [
      | inl e ↦ rw e (
          single-Finishes frame (get_addr_len frame (length frame)) size refl low more positive fits
            clock max_frags timely seq ctx)
      | inr e ↦ rw e (
          many-Finishes frame (get_addr_len frame (length frame)) size refl low more positive fits
            clock max_frags timely seq ctx max_frags (ground arith) enough (omega arith))
    ]
