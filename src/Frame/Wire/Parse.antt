-- ===== src/Frame/Wire/Parse.antt =====
-- The checks of `fr_parse_frame` on a frame that begins with an encoded address.
use vfrs.Common.{
  ℕ, ◌+◌, ◌-◌, ◌%◌, ◌≤◌, ◌<◌, ◌≡◌, refl, sym, subst, inl, inr, Bool, true, false, ◌&&◌, ◌||◌,
  Bool-cases, Option-cases, some, List, ◌∷◌, ◌++◌, ltb, leb, ◌==◌, length, length-take, length-drop,
  take, drop, arith,
}
use native.Mathlib.Nat.{le_refl}
use vfrs.Frame.Addr.{octet, get_addr_len, decode_addr, encode_dlci_with_flags}
use vfrs.Frame.Addr.Octets.{low_1, and_02, bit, bit-lt}
use vfrs.Frame.Addr.RoundTrip.{octets, encode_shape}
use vfrs.Frame.Addr.Length.{addr_len_4, addr_len_3, addr_len_2, get_addr_len-le}
use vfrs.Frame.Hdlc.Laws.{hdlc_unstuff_bounds}
use vfrs.Frame.Wire.{Parsed, check_frame, fr_max_framesz, start_of, end_of, destuff, parse_frame}

abbrev pub Accepted : List ℕ → ℕ → Type 0
Accepted frame n =
    check_frame frame n ≡ some (record { frame = frame; addr = decode_addr frame; frame_len = n })

accepts_4 :
    (a b c d n : ℕ) (rest : List ℕ)
    → d < 256
    → a % 2 ≡ 0
    → b % 2 ≡ 0
    → c % 2 ≡ 0
    → d % 4 ≡ 1
    → 4 ≤ n
    → n ≤ 1604
    → Accepted (a ∷ b ∷ c ∷ d ∷ rest) n
unfolding check_frame
accepts_4 a b c d n rest hd ea eb ec ed lo hi =
    rw (addr_len_4 a b c (d ∷ rest) n ea eb ec lo, low_1 a, low_1 d, and_02 d hd) (ground arith)

accepts_3 :
    (a b c n : ℕ) (rest : List ℕ)
    → c < 256
    → a % 2 ≡ 0
    → b % 2 ≡ 0
    → c % 4 ≡ 1
    → 3 ≤ n
    → n ≤ 1603
    → Accepted (a ∷ b ∷ c ∷ rest) n
unfolding check_frame
accepts_3 a b c n rest hc ea eb ec lo hi =
    rw (addr_len_3 a b c rest n ea eb (omega arith) lo, low_1 a, low_1 c, and_02 c hc)
      (ground arith)

accepts_2 :
    (a b n : ℕ) (rest : List ℕ)
    → a % 2 ≡ 0
    → b % 2 ≡ 1
    → 2 ≤ n
    → n ≤ 1602
    → Accepted (a ∷ b ∷ rest) n
unfolding check_frame
accepts_2 a b n rest ea eb lo hi =
    rw (addr_len_2 a b rest n ea eb lo, low_1 a, low_1 b) (ground arith)

accepts-octets :
    (dlci f b d c w n : ℕ) (rest : List ℕ)
    → f < 2
    → b < 2
    → d < 2
    → c < 2
    → length (octets dlci f b d c w) ≤ n
    → n ≤ length (octets dlci f b d c w) + 1600
    → Accepted (octets dlci f b d c w ++ rest) n
accepts-octets dlci f b d c w n rest hf hb hd hc = elim (Bool-cases (w == 4 || ltb 63487 dlci)) [
  | inl wide ↦ rw wide (λ lo hi.
      accepts_4 _ _ _ _ n rest (omega arith) (omega arith) (omega arith) (omega arith) (omega arith)
        lo hi)
  | inr other ↦ elim (Bool-cases (w == 3 || ltb 1023 dlci && leb dlci 63487)) [
    | inl middle ↦
        rw (other, middle)
          (λ lo hi.
            accepts_3 _ _ _ n rest (omega arith) (omega arith) (omega arith) (omega arith) lo hi)
    | inr short ↦
        rw (other, short) (λ lo hi. accepts_2 _ _ n rest (omega arith) (omega arith) lo hi)
  ]
]

-- A frame that begins with an encoded address passes every check if its information field is within
-- N203.
pub check_frame-encode :
    (dlci fecn becn de cr w n : ℕ) (rest : List ℕ)
    → let address = encode_dlci_with_flags dlci fecn becn de cr w in
      length address ≤ n → n ≤ length address + 1600 → Accepted (address ++ rest) n
check_frame-encode dlci fecn becn de cr w n rest = rw (encode_shape dlci fecn becn de cr w) (
    accepts-octets dlci (bit fecn) (bit becn) (bit de) (cr % 2) w n rest (bit-lt fecn) (bit-lt becn)
      (bit-lt de) (omega arith))

-- What `check_frame` accepts, it returns as it is.
check_frame_sound :
    (frame : List ℕ) (n : ℕ) {p : Parsed}
    → check_frame frame n ≡ some p
    → (p ≡ record { frame = frame; addr = decode_addr frame; frame_len = n })
      × (octet frame 0 % 2 ≡ 0)
      × (2 ≤ get_addr_len frame n)
      × (octet frame (get_addr_len frame n - 1) % 2 ≡ 1)
      × (get_addr_len frame n ≤ n)
      × (n ≤ get_addr_len frame n + fr_max_framesz)
unfolding check_frame
check_frame_sound frame n e =
    ground (arith, low_1 (octet frame 0), low_1 (octet frame (get_addr_len frame n - 1)))

end-le : (frame : List ℕ) → end_of frame ≤ length frame
unfolding end_of
end-le frame = ground arith

destuff_sound :
    (frame : List ℕ) {out : List ℕ × ℕ} → destuff frame ≡ some out → out.1 + 2 ≤ length frame
unfolding destuff
destuff_sound frame e =
    let n : ℕ = end_of frame - start_of frame in
    ground (
      arith,
      hdlc_unstuff_bounds (take n (drop (start_of frame) frame)) 1616,
      length-take n (drop (start_of frame) frame),
      length-drop (start_of frame) frame,
      end-le frame,
    )

-- The facts of an accepted buffer.
abbrev Sound : Parsed → ℕ → Type 0
Sound p limit =
    let addr_len = get_addr_len p.frame p.frame_len in
    (p.addr ≡ decode_addr p.frame)
    × (octet p.frame 0 % 2 ≡ 0)
    × (2 ≤ addr_len)
    × (addr_len ≤ 4)
    × (octet p.frame (addr_len - 1) % 2 ≡ 1)
    × (addr_len ≤ p.frame_len)
    × (p.frame_len ≤ addr_len + fr_max_framesz)
    × (p.frame_len ≤ limit)

accepted-Sound :
    (frame : List ℕ) (n limit : ℕ) {p : Parsed}
    → n ≤ limit
    → check_frame frame n ≡ some p
    → Sound p limit
accepted-Sound frame n limit {p} h e =
    let s = check_frame_sound frame n e in
    subst (λ q. Sound q limit) (sym s.0)
      (refl, s.1, s.2, omega (arith, get_addr_len-le frame n), s.3, s.4, s.5, h)

-- Whatever `fr_parse_frame` accepts, on any transport, begins with an address of two to four octets
-- whose EA bits close it, has an information field within N203 and a length within the input, and
-- the address reported is that of the buffer.
pub parse_frame_sound :
    (frame : List ℕ) (is_serial : Bool) {p : Parsed}
    → parse_frame frame is_serial ≡ some p
    → let addr_len = get_addr_len p.frame p.frame_len in
      (p.addr ≡ decode_addr p.frame)
      × (octet p.frame 0 % 2 ≡ 0)
      × (2 ≤ addr_len)
      × (addr_len ≤ 4)
      × (octet p.frame (addr_len - 1) % 2 ≡ 1)
      × (addr_len ≤ p.frame_len)
      × (p.frame_len ≤ addr_len + fr_max_framesz)
      × (p.frame_len ≤ length frame)
unfolding parse_frame
parse_frame_sound frame false e =
    accepted-Sound frame (length frame) (length frame) (le_refl (length frame)) (ground (arith, e))
parse_frame_sound frame true e = elim (Option-cases (destuff frame)) [
  | inl none' ↦ absurd (ground (arith, e, none'))
  | inr (out, got) ↦
      accepted-Sound out.0 out.1 (length frame) (omega (arith, destuff_sound frame got))
        (ground (arith, e, got))
]
