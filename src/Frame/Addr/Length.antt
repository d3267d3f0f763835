-- ===== src/Frame/Addr/Length.antt =====
-- `fr_get_addr_len` finds the end of an address by its EA bits.
use vfrs.Common.{
  ℕ, zero, suc, ◌*◌, ◌%◌, ◌≤◌, ◌<◌, min, ◌≡◌, refl, ◌⊎◌, inl, inr, ◌&&◌, ◌||◌, Bool-cases, List, [],
  ◌∷◌, ◌++◌, bit_and, ltb, leb, ◌==◌, length, take, arith,
}
use native.Mathlib.Nat.{mod-mod}
use vfrs.Common.Bits.{bit_or-zero}
use vfrs.Frame.Addr.{octet, get_addr_len, encode_dlci_with_flags, encode_dlci}
use vfrs.Frame.Addr.Octets.{low_1, low_4, bit, bit-lt}
use vfrs.Frame.Addr.RoundTrip.{octets, encode_shape}

pub addr_len_4 :
    (a b c : ℕ) (rest : List ℕ) (n : ℕ)
    → a % 2 ≡ 0
    → b % 2 ≡ 0
    → c % 2 ≡ 0
    → 4 ≤ n
    → get_addr_len (a ∷ b ∷ c ∷ rest) n ≡ 4
unfolding get_addr_len
addr_len_4 a b c rest n ea eb ec h = ground (arith, low_1 a, low_1 b, low_1 c)

pub addr_len_3 :
    (a b c : ℕ) (rest : List ℕ) (n : ℕ)
    → a % 2 ≡ 0
    → b % 2 ≡ 0
    → c % 2 ≡ 1
    → 3 ≤ n
    → get_addr_len (a ∷ b ∷ c ∷ rest) n ≡ 3
unfolding get_addr_len
addr_len_3 a b c rest n ea eb ec h = ground (arith, low_1 a, low_1 b, low_1 c)

pub addr_len_2 :
    (a b : ℕ) (rest : List ℕ) (n : ℕ)
    → a % 2 ≡ 0
    → b % 2 ≡ 1
    → 2 ≤ n
    → get_addr_len (a ∷ b ∷ rest) n ≡ 2
unfolding get_addr_len
addr_len_2 a b rest n ea eb h = ground (arith, low_1 a, low_1 b)

len-octets :
    (dlci f b d c w : ℕ) (rest : List ℕ) (n : ℕ)
    → f < 2
    → b < 2
    → d < 2
    → c < 2
    → length (octets dlci f b d c w) ≤ n
    → get_addr_len (octets dlci f b d c w ++ rest) n ≡ length (octets dlci f b d c w)
len-octets dlci f b d c w rest n hf hb hd hc = elim (Bool-cases (w == 4 || ltb 63487 dlci)) [
  | inl wide ↦ rw wide (λ h. addr_len_4 _ _ _ _ n (omega arith) (omega arith) (omega arith) h)
  | inr other ↦ elim (Bool-cases (w == 3 || ltb 1023 dlci && leb dlci 63487)) [
    | inl middle ↦
        rw (other, middle) (λ h. addr_len_3 _ _ _ _ n (omega arith) (omega arith) (omega arith) h)
    | inr short ↦ rw (other, short) (λ h. addr_len_2 _ _ _ n (omega arith) (omega arith) h)
  ]
]

-- In a buffer that holds the whole encoded address, `fr_get_addr_len` is the number of octets that
-- the encoder wrote, whatever follows them.
pub get_addr_len-encode :
    (dlci fecn becn de cr dlci_len : ℕ) (rest : List ℕ) (max_len : ℕ)
    → length (encode_dlci_with_flags dlci fecn becn de cr dlci_len) ≤ max_len
    → get_addr_len (encode_dlci_with_flags dlci fecn becn de cr dlci_len ++ rest) max_len
      ≡ length (encode_dlci_with_flags dlci fecn becn de cr dlci_len)
get_addr_len-encode dlci fecn becn de cr dlci_len rest max_len =
    rw (encode_shape dlci fecn becn de cr dlci_len) (
      len-octets dlci (bit fecn) (bit becn) (bit de) (cr % 2) dlci_len rest max_len (bit-lt fecn)
        (bit-lt becn) (bit-lt de) (omega arith))

pub get_addr_len-le : (addr : List ℕ) (max_len : ℕ) → get_addr_len addr max_len ≤ min max_len 4
unfolding get_addr_len
get_addr_len-le addr max_len = ground arith

-- Without flags the two encoders agree, except on the DLCIs for which only the flagged one uses
-- three octets.
pub encode_dlci-eq :
    (dlci dlci_len : ℕ)
    → (dlci_len ≡ 4) ⊎ (dlci ≤ 1023)
    → encode_dlci dlci dlci_len ≡ encode_dlci_with_flags dlci 0 0 0 0 dlci_len
unfolding encode_dlci encode_dlci_with_flags
encode_dlci-eq dlci dlci_len h =
    let e : bit_and dlci 15 * 16 % 256 ≡ bit_and dlci 15 * 16 = omega (arith, low_4 dlci) in
    simp (bit_or-zero, mod-mod, e) (ground arith)

pub length-encode :
    (dlci fecn becn de cr w : ℕ)
    → (2 ≤ length (encode_dlci_with_flags dlci fecn becn de cr w))
      × (length (encode_dlci_with_flags dlci fecn becn de cr w) ≤ 4)
unfolding encode_dlci_with_flags
length-encode dlci fecn becn de cr w = ground arith

get_or-take :
    (n i : ℕ) (xs ys : List ℕ) → i < n → n ≤ length xs → octet (take n xs ++ ys) i ≡ octet xs i
get_or-take zero i xs ys h k = absurd (omega arith)
get_or-take (suc n) i [] ys h k = absurd (omega arith)
get_or-take (suc n) zero (x ∷ xs) ys h k = refl
get_or-take (suc n) (suc i) (x ∷ xs) ys h k = get_or-take n i xs ys (omega arith) (omega arith)

-- Two buffers with the same first octets, of which the address does not fill the first.
module _ (f g : List ℕ) (n m : ℕ) (e0 : octet g 0 ≡ octet f 0) (e1 : octet g 1 ≡ octet f 1) where
  same_2 : get_addr_len f n ≡ 2 → 2 < n → 2 < m → get_addr_len g m ≡ 2
  unfolding get_addr_len
  same_2 e h k = rw (e0, e1) (ground arith)

  same_3 : octet g 2 ≡ octet f 2 → get_addr_len f n ≡ 3 → 3 < n → 3 < m → get_addr_len g m ≡ 3
  unfolding get_addr_len
  same_3 e2 e h k = rw (e0, e1, e2) (ground arith)

  same_4 : octet g 2 ≡ octet f 2 → get_addr_len f n ≡ 4 → 4 < n → 4 < m → get_addr_len g m ≡ 4
  unfolding get_addr_len
  same_4 e2 e h k = rw (e0, e1, e2) (ground arith)

-- The length of an address depends on its own octets alone.
pub get_addr_len-prefix :
    (frame rest : List ℕ) (len n m : ℕ)
    → get_addr_len frame n ≡ len
    → 2 ≤ len
    → len < n
    → len ≤ length frame
    → len < m
    → get_addr_len (take len frame ++ rest) m ≡ len
get_addr_len-prefix frame rest zero n m e low more fits room = absurd (omega arith)
get_addr_len-prefix frame rest (suc zero) n m e low more fits room = absurd (omega arith)
get_addr_len-prefix frame rest (suc (suc zero)) n m e low more fits room =
    same_2 frame (take 2 frame ++ rest) n m (get_or-take 2 0 frame rest (omega arith) fits)
      (get_or-take 2 1 frame rest (omega arith) fits) e more room
get_addr_len-prefix frame rest (suc (suc (suc zero))) n m e low more fits room =
    same_3 frame (take 3 frame ++ rest) n m (get_or-take 3 0 frame rest (omega arith) fits)
      (get_or-take 3 1 frame rest (omega arith) fits)
      (get_or-take 3 2 frame rest (omega arith) fits) e more room
get_addr_len-prefix frame rest (suc (suc (suc (suc zero)))) n m e low more fits room =
    same_4 frame (take 4 frame ++ rest) n m (get_or-take 4 0 frame rest (omega arith) fits)
      (get_or-take 4 1 frame rest (omega arith) fits)
      (get_or-take 4 2 frame rest (omega arith) fits) e more room
get_addr_len-prefix frame rest (suc (suc (suc (suc (suc len))))) n m e low more fits room =
    absurd (omega (arith, get_addr_len-le frame n))
