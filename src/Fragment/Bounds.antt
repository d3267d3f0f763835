-- ===== src/Fragment/Bounds.antt =====
-- How many fragments there are, and how long.
use vfrs.Common.{
  ℕ, zero, suc, ◌+◌, ◌-◌, ◌≤◌, ◌<◌, ◌≡◌, true, Bool-cases, inl, inr, some, All, List, bit_and, ltb,
  leb, ◌==◌, if◌then◌else◌, length, length-take, length-drop, take, drop, arith, lt→not-leb,
}
use vfrs.Frame.Addr.{get_addr_len}
use vfrs.Fragment.{next_seq, fragment_from, fragment_frame}
use vfrs.Fragment.RoundTrip.{fragment_frame-sent, sent}
use vfrs.Fragment.Header.{length-written}

-- At most `room` fragments, each of at most `size` octets of payload behind its address and header.
pub record Bounded (len size room : ℕ) (frags : List (List ℕ)) : Type 0 where
  pub few : length frags ≤ room
  pub short : All (λ f. length f ≤ len + 2 + size) frags

module _ (frame : List ℕ) (len size : ℕ) (fits : len ≤ length frame) where
  fragment_from-Bounded :
      (room offset seq : ℕ) → Bounded len size room (fragment_from frame len size room offset seq).0
  unfolding fragment_from
  fragment_from-Bounded zero offset seq = record { few = omega arith; short = tt }
  fragment_from-Bounded (suc room) offset seq =
      let left = length frame - len - offset in
      let chunk : ℕ = if ltb size left then size else left in
      let rest = fragment_from-Bounded room (offset + chunk) (next_seq seq) in
      let one : length (take chunk (drop (len + offset) frame)) ≤ size =
        ground (arith, length-take chunk (drop (len + offset) frame)) in
      elim (Bool-cases (ltb offset (length frame - len))) [
        | inl e ↦ rw e (record {
          few = omega (arith, rest.few);
          short = (
            omega (
              arith,
              one,
              length-take len frame,
              length-written (take len frame) (offset == 0)
                  (leb (length frame - len) (offset + chunk)) (bit_and seq 0x0FFF)
                  (take chunk (drop (len + offset) frame)),
            ),
            rest.short,
          );
        })
        | inr e ↦ rw e (record { few = omega arith; short = tt })
      ]

-- Cutting a frame with an address and a payload, into fragments of a positive size, gives at most
-- `max_frags` fragments (if that is not 0), and each is at most two octets of header and
-- `fragment_size` octets longer than the address.
pub fragment_frame-Bounded :
    (frame : List ℕ) (fragment_size max_frags seq : ℕ)
    → let len = get_addr_len frame (length frame) in
      2 ≤ len
      → len < length frame
      → 0 < fragment_size
      → 0 < max_frags
      → (frags : List (List ℕ)) × ((fragment_frame frame fragment_size max_frags seq).0
          ≡ some frags)
        × Bounded len fragment_size max_frags frags
fragment_frame-Bounded frame size max_frags seq low more positive room =
    let len = get_addr_len frame (length frame) in
    (
      sent frame size max_frags seq,
      fragment_frame-sent frame size max_frags seq low more positive (lt→not-leb max_frags 0 room),
      (elim (Bool-cases (leb (length frame - len) size)) [
        | inl e ↦ rw e (record {
          few = omega arith;
          short = (
            ground (
              arith,
              length-take len frame,
              length-drop len frame,
              length-written (take len frame) true true (bit_and seq 0x0FFF) (drop len frame),
            ),
            tt,
          );
        })
        | inr e ↦ rw e (fragment_from-Bounded frame len size (omega arith) max_frags 0 seq)
      ]),
    )
