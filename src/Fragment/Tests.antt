-- ===== src/Fragment/Tests.antt =====
-- Runs of fragmentation and reassembly.
use vfrs.Common.{◌+◌, ◌*◌, ℕ, ◌≡◌, refl, some, List, [], ◌∷◌, ◌++◌, replicate, arith}
use vfrs.Frame.Addr.{get_addr_len}
use vfrs.Fragment.{reasm_init, delivered, pending, fragment_frame}
use vfrs.Fragment.RoundTrip.{feed, feed-fragment_frame}
use vfrs.Fragment.Bounds.{Bounded, fragment_frame-Bounded}

-- DLCI 100, and five octets behind the address.
abbrev frame : List ℕ
frame = 0x18 ∷ 0x41 ∷ 3 ∷ 10 ∷ 20 ∷ 30 ∷ 40 ∷ []

address_of_2 : get_addr_len frame 7 ≡ 2
unfolding get_addr_len
address_of_2 = refl

feed-fragment_frame_example :
    (frags : List (List ℕ)) × (k : ℕ) × ((fragment_frame frame 2 16 4095).0 ≡ some frags)
    × (feed reasm_init frags (λ i. 1000 + 500 * i) 0 ≡ replicate k pending ++ delivered frame ∷ [])
feed-fragment_frame_example =
    feed-fragment_frame frame 2 16 4095 reasm_init (λ i. 1000 + 500 * i)
      (omega (arith, address_of_2)) (omega (arith, address_of_2)) (omega arith) (omega arith)
      (omega (arith, address_of_2))
      (λ i h. record { forward = omega arith; soon = omega arith; fits = omega arith })

fragment_frame-Bounded_example :
    (frags : List (List ℕ)) × ((fragment_frame frame 2 16 4095).0 ≡ some frags)
    × Bounded (get_addr_len frame 7) 2 16 frags
fragment_frame-Bounded_example =
    fragment_frame-Bounded frame 2 16 4095 (omega (arith, address_of_2))
      (omega (arith, address_of_2)) (omega arith) (omega arith)
