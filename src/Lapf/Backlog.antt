-- ===== src/Lapf/Backlog.antt =====
-- The backlog of a link as a first-in first-out queue: lapf_send_l3 puts frames at its end, and
-- lapf_process_backlog sends those at its front while the working window has room.
use vfrs.Common.{
  ℕ, zero, suc, ◌+◌, ◌-◌, ◌%◌, ◌≤◌, ◌<◌, ◌≡◌, refl, sym, subst, ap, ◌∙◌, ◌⊎◌, inl, inr, ◌≢◌, Bool,
  true, false, ◌||◌, List, [], ◌∷◌, ◌++◌, length, leb, ◌==◌, if◌then◌else◌, arith, Bool-cases,
  ==_iff, not-==_iff, get_or, get_or-set_self, get_or-set_ne, set,
}
use vfrs.Lapf.{Lapf, Link, ok, failed, outstanding, is_connected}
use vfrs.Lapf.Frames.{send_i_frame, transmit, dequeue, drain, process_backlog}
use vfrs.Lapf.Calls.{enqueue, send_l3}
use vfrs.Lapf.Window.{InWindow}

unfoldable pub slots_from : ℕ → ℕ → List (List ℕ) → List (List ℕ)
slots_from zero i ring = []
slots_from (suc n) i ring = get_or ring i [] ∷ slots_from n ((i + 1) % 64) ring

abbrev pub count_waiting : Lapf → ℕ
count_waiting l = (l.backlog_tail + 64 - l.backlog_head) % 64

-- The frames that wait, first in first.
abbrev pub waiting : Lapf → List (List ℕ)
waiting l = slots_from (count_waiting l) l.backlog_head l.tx_backlog

-- The specification of a drained queue: frames are transmitted from its front, while the working
-- window has room for one more.
abbrev pub take_slot : ℕ → List ℕ → Link → Link
take_slot now octets w =
    let done = transmit now octets w in
    record done { lapf = record done.lapf { backlog_head = (w.lapf.backlog_head + 1) % 64 } }

unfoldable pub send_waiting : ℕ → List (List ℕ) → Link → Link
send_waiting now [] w = w
send_waiting now (f ∷ fs) w = elim (leb w.lapf.v_k (outstanding w.lapf.v_s w.lapf.v_a)) [
  | true ↦ w
  | false ↦ send_waiting now fs (take_slot now f w)
]

module _ (fuel now : ℕ) (w : Link) where
  drain_empty : (w.lapf.backlog_head == w.lapf.backlog_tail) ≡ true → drain (suc fuel) now w ≡ w
  unfolding drain
  drain_empty e = rw (e, drain)

  drain_goes :
      (w.lapf.backlog_head == w.lapf.backlog_tail) ≡ false
      → drain (suc fuel) now w ≡ elim (leb w.lapf.v_k (outstanding w.lapf.v_s w.lapf.v_a)) [
        | true ↦ w
        | false ↦ drain fuel now (dequeue now w)
      ]
  unfolding drain
  drain_goes e = rw (e, drain)

module _ (now : ℕ) where
  front :
      (w : Link) (c : ℕ)
      → w.lapf.backlog_head < 64
      → w.lapf.backlog_tail < 64
      → count_waiting w.lapf ≡ suc c
      → waiting w.lapf
        ≡ get_or w.lapf.tx_backlog w.lapf.backlog_head [] ∷ waiting (dequeue now w).lapf
  unfolding slots_from dequeue transmit send_i_frame
  front w c h t e =
      let l = w.lapf in
      let less : (l.backlog_tail + 64 - (l.backlog_head + 1) % 64) % 64 ≡ c = omega arith in
      ap (λ k. slots_from k l.backlog_head l.tx_backlog) e
      ∙ ap
          (λ k.
            get_or l.tx_backlog l.backlog_head []
            ∷ slots_from k ((l.backlog_head + 1) % 64) l.tx_backlog)
          (sym less)

  drain-eq :
      (fuel : ℕ) (w : Link)
      → w.lapf.backlog_head < 64
      → w.lapf.backlog_tail < 64
      → count_waiting w.lapf < fuel
      → drain fuel now w ≡ send_waiting now (waiting w.lapf) w
  unfolding send_waiting slots_from dequeue transmit send_i_frame
  drain-eq zero w h t f = absurd (omega arith)
  drain-eq (suc fuel) w h t f =
      let l = w.lapf in
      elim (Bool-cases (l.backlog_head == l.backlog_tail)) [
        | inl e ↦
            let none : count_waiting l ≡ 0 = ground arith in
            drain_empty fuel now w e
            ∙ ap (λ k. send_waiting now (slots_from k l.backlog_head l.tx_backlog) w) (sym none)
        | inr n ↦
            let some : count_waiting l ≡ suc (count_waiting l - 1) = ground arith in
            let rest = drain-eq fuel (dequeue now w) (omega arith) t (ground arith) in
            drain_goes fuel now w n
            ∙ ap (λ (u : Link). elim (leb l.v_k (outstanding l.v_s l.v_a)) [ true ↦ w | false ↦ u ])
                rest
            ∙ ap (λ fs. send_waiting now fs w) (sym (front w (count_waiting l - 1) h t some))
      ]

  -- What a drained queue leaves: the rest of it, and no room where there is a rest.
  pub record Leaves (before after : Link) : Type 0 where
    pub sent_off : List (List ℕ)
    pub split : waiting before.lapf ≡ sent_off ++ waiting after.lapf
    pub stops :
        (waiting after.lapf ≡ [])
        ⊎ (leb after.lapf.v_k (outstanding after.lapf.v_s after.lapf.v_a) ≡ true)

  drain-Leaves :
      (fuel : ℕ) (w : Link)
      → w.lapf.backlog_head < 64
      → w.lapf.backlog_tail < 64
      → count_waiting w.lapf < fuel
      → Leaves w (drain fuel now w)
  unfolding slots_from dequeue transmit send_i_frame
  drain-Leaves zero w h t f = absurd (omega arith)
  drain-Leaves (suc fuel) w h t f =
      let l = w.lapf in
      elim (Bool-cases (l.backlog_head == l.backlog_tail)) [
        | inl e ↦
            let none : count_waiting l ≡ 0 = ground arith in
            let empty : waiting l ≡ [] = ap (λ k. slots_from k l.backlog_head l.tx_backlog) none in
            subst (Leaves w) (sym (drain_empty fuel now w e))
              (record { sent_off = []; split = refl; stops = inl empty })
        | inr n ↦
            let some : count_waiting l ≡ suc (count_waiting l - 1) = ground arith in
            subst (Leaves w) (sym (drain_goes fuel now w n))
              (elim (Bool-cases (leb l.v_k (outstanding l.v_s l.v_a))) [
                | inl full ↦
                    subst
                      (λ (b : Bool).
                        Leaves w (elim b [ true ↦ w | false ↦ drain fuel now (dequeue now w) ]))
                      (sym full) (record { sent_off = []; split = refl; stops = inr full })
                | inr room ↦
                    let rest = drain-Leaves fuel (dequeue now w) (omega arith) t (ground arith) in
                    subst
                      (λ (b : Bool).
                        Leaves w (elim b [ true ↦ w | false ↦ drain fuel now (dequeue now w) ]))
                      (sym room)
                      (record {
                        sent_off = get_or l.tx_backlog l.backlog_head [] ∷ rest.sent_off;
                        split =
                            front w (count_waiting l - 1) h t some
                            ∙ ap (λ fs. get_or l.tx_backlog l.backlog_head [] ∷ fs) rest.split;
                        stops = rest.stops;
                      })
              ])
      ]

  -- While the peer is not busy, the loop over the backlog transmits the waiting frames in the order
  -- in which they came as long as the working window has room, its fuel of 64 rounds is enough, and
  -- what it leaves is the rest of the waiting frames: none, or the window is full.
  pub process_backlog-Leaves :
      (w : Link)
      → w.lapf.backlog_head < 64
      → w.lapf.backlog_tail < 64
      → w.lapf.peer_receiver_busy ≡ false
      → (process_backlog now w ≡ send_waiting now (waiting w.lapf) w)
        × Leaves w (process_backlog now w)
  unfolding process_backlog
  process_backlog-Leaves w h t b =
      let drains : process_backlog now w ≡ drain 64 now w =
        ap (λ (busy : Bool). if busy then w else drain 64 now w) b in
      (
        drains ∙ drain-eq 64 w h t (omega arith),
        subst (Leaves w) (sym drains) (drain-Leaves 64 w h t (omega arith)),
      )

-- The ring after a write at its tail.
slots-set_other :
    (n d i : ℕ) (ring : List (List ℕ)) (v : List ℕ)
    → i < 64
    → n ≤ d
    → d < 64
    → slots_from n i (set ring ((i + d) % 64) v) ≡ slots_from n i ring
unfolding slots_from
slots-set_other zero d i ring v a b c = refl
slots-set_other (suc n) d i ring v a b c =
    let other : (i + d) % 64 ≢ i = λ e. omega arith in
    let shift : ((i + 1) % 64 + (d - 1)) % 64 ≡ (i + d) % 64 = omega arith in
    rw (get_or-set_ne ring ((i + d) % 64) i v [] other) (
      ap (λ fs. get_or ring i [] ∷ fs)
        (ap (λ k. slots_from n ((i + 1) % 64) (set ring k v)) (sym shift)
          ∙ slots-set_other n (d - 1) ((i + 1) % 64) ring v (omega arith) (omega arith)
              (omega arith)))

slots-set_tail :
    (n i : ℕ) (ring : List (List ℕ)) (v : List ℕ)
    → i < 64
    → n < 64
    → length ring ≡ 64
    → slots_from (suc n) i (set ring ((i + n) % 64) v) ≡ slots_from n i ring ++ (v ∷ [])
unfolding slots_from
slots-set_tail zero i ring v a b c =
    let here : (i + 0) % 64 ≡ i = omega arith in
    rw here (rw (get_or-set_self ring i v [] (omega arith)))
slots-set_tail (suc n) i ring v a b c =
    let other : (i + suc n) % 64 ≢ i = λ e. omega arith in
    let shift : ((i + 1) % 64 + n) % 64 ≡ (i + suc n) % 64 = omega arith in
    rw (get_or-set_ne ring ((i + suc n) % 64) i v [] other) (
      ap (λ fs. get_or ring i [] ∷ fs)
        (ap (λ k. slots_from (suc n) ((i + 1) % 64) (set ring k v)) (sym shift)
          ∙ slots-set_tail n ((i + 1) % 64) ring v (omega arith) (omega arith) c))

module _ (octets : List ℕ) (w : Link) where
  abbrev queued : Link
  queued = record w {
    lapf = record w.lapf {
      tx_backlog = set w.lapf.tx_backlog w.lapf.backlog_tail octets;
      backlog_tail = (w.lapf.backlog_tail + 1) % 64;
    };
  }

  enqueue_lem : enqueue octets w ≡ (
      if (w.lapf.backlog_tail + 1) % 64 == w.lapf.backlog_head then (failed, w) else (ok, queued))
  unfolding enqueue
  enqueue_lem = refl

  send_l3_enqueues :
      (now : ℕ)
      → is_connected w.lapf.state ≡ true
      → length octets ≤ w.lapf.n201
      → (leb w.lapf.v_k (outstanding w.lapf.v_s w.lapf.v_a) || w.lapf.peer_receiver_busy) ≡ true
      → send_l3 now octets w ≡ enqueue octets w
  unfolding send_l3
  send_l3_enqueues now c small full = ground arith

  queued-waiting :
      (limit : ℕ)
      → InWindow limit w.lapf
      → (w.lapf.backlog_tail + 1) % 64 ≢ w.lapf.backlog_head
      → waiting queued.lapf ≡ waiting w.lapf ++ (octets ∷ [])
  queued-waiting limit h n =
      let l = w.lapf in
      let c = count_waiting l in
      let here : (l.backlog_head + c) % 64 ≡ l.backlog_tail = omega (arith, h) in
      let longer : ((l.backlog_tail + 1) % 64 + 64 - l.backlog_head) % 64 ≡ suc c =
        omega (arith, h) in
      ap (λ k. slots_from k l.backlog_head (set l.tx_backlog l.backlog_tail octets)) longer
      ∙ ap (λ k. slots_from (suc c) l.backlog_head (set l.tx_backlog k octets)) (sym here)
      ∙ slots-set_tail c l.backlog_head l.tx_backlog octets h.head (omega arith) h.places

-- A link that is connected and cannot send puts a message of at most N201 octets at the end of the
-- waiting ones, if fewer than 63 wait; with 63 it refuses the message and changes nothing.
pub send_l3-queued :
    (limit now : ℕ) (octets : List ℕ) (w : Link)
    → InWindow limit w.lapf
    → is_connected w.lapf.state ≡ true
    → length octets ≤ w.lapf.n201
    → (leb w.lapf.v_k (outstanding w.lapf.v_s w.lapf.v_a) || w.lapf.peer_receiver_busy) ≡ true
    → let r = send_l3 now octets w in
      ((r.0 ≡ ok) × (waiting r.1.lapf ≡ waiting w.lapf ++ (octets ∷ [])))
      ⊎ ((count_waiting w.lapf ≡ 63) × (r ≡ (failed, w)))
send_l3-queued limit now octets w h c small full =
    let l = w.lapf in
    let e = send_l3_enqueues octets w now c small full ∙ enqueue_lem octets w in
    elim (Bool-cases ((l.backlog_tail + 1) % 64 == l.backlog_head)) [
      | inl last ↦
          let at : (l.backlog_tail + 1) % 64 ≡ l.backlog_head = (==_iff _ _).0 last in
          inr (
            omega (arith, h),
            e ∙ ap (λ (b : Bool). if b then (failed, w) else (ok, queued octets w)) last,
          )
      | inr n ↦
          let r : send_l3 now octets w ≡ (ok, queued octets w) =
            e ∙ ap (λ (b : Bool). if b then (failed, w) else (ok, queued octets w)) n in
          let other = (not-==_iff _ _).0 n in
          inl
            (ap (λ p. p.0) r, ap (λ p. waiting p.1.lapf) r ∙ queued-waiting octets w limit h other)
    ]
