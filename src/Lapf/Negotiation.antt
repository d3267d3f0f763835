-- ===== src/Lapf/Negotiation.antt =====
-- The parameters that an XID exchange leaves.
use vfrs.Common.{
  ℕ, ◌*◌, ◌/◌, ◌%◌, ◌^◌, ◌≤◌, ◌<◌, ◌≡◌, refl, ap, ap₂, ◌∙◌, Bool, true, List, drop, ◌==◌,
  if◌then◌else◌, arith, bit_and, bit_or, u8, u16, u32, ◌<<<◌, ◌>>>◌,
}
use vfrs.Common.Bits.{bit_or_shifted, bit_and_mask}
use vfrs.Lapf.{Lapf, Link}
use vfrs.Lapf.Xid.{
  XidValues, xid_params, smaller, negotiated, xid_payload, answer_xid, call_cllm, handle_xid,
}

module _ (l : Lapf) (size : l.n201 < 2 ^ 16) (window : l.k < 2 ^ 8) where
  abbrev timer_units : ℕ
  timer_units = u8 (l.t200 / 100)

  abbrev told : XidValues
  told = record { n201_tx = l.n201; window = l.k; timer = timer_units * 100 }

  size_lem : u16 (bit_or (u8 (l.n201 >>> 8) <<< 8) (bit_and l.n201 0xFF)) ≡ l.n201
  size_lem =
      rw (bit_and_mask 8 l.n201 0xFF refl)
        (rw (bit_or_shifted 8 (u8 (l.n201 >>> 8)) (l.n201 % 2 ^ 8) (omega arith)) (omega arith))

  -- The parser reads in the answer what the answer was built from.
  params-payload : (v : XidValues) → xid_params 14 10 (drop 4 (xid_payload l)) v ≡ told
  unfolding xid_params xid_payload
  params-payload v =
      ap₂ (λ n k. record { n201_tx = n; window = k; timer = u32 (timer_units * 100) }) size_lem
        (omega arith)
      ∙ ap (λ t. record { n201_tx = l.n201; window = l.k; timer = t }) (omega arith)

  -- A context that gets the XID answer of a peer keeps the smaller of the two windows and of the two
  -- frame sizes. Of the peer's T200 it takes the hundreds of milliseconds modulo 256, since the answer
  -- has one octet for them: a T200 of 25.6 s or more is taken for its remainder. Where the octet is 0 it
  -- keeps its own T200. The peer's frame size is below 2^16 and its window below 2^8.
  pub handle_xid-response :
      (frame : List ℕ) (pf : Bool) (w : Link)
      → let l' = (handle_xid frame (xid_payload l) pf true w).lapf in
        (l'.k ≡ smaller l.k w.lapf.k)
        × (l'.n201 ≡ smaller l.n201 w.lapf.n201)
        × (l'.t200
            ≡ (if u8 (l.t200 / 100) * 100 == 0 then w.lapf.t200 else u8 (l.t200 / 100) * 100))
  unfolding handle_xid xid_payload negotiated
  handle_xid-response frame pf w =
      let v : XidValues = record {
        n201_tx = w.lapf.n201;
        window = w.lapf.k;
        timer = w.lapf.t200;
      } in
      let e = params-payload v in
      (
        ap (λ p. smaller p.window w.lapf.k) e,
        ap (λ p. smaller p.n201_tx w.lapf.n201) e,
        ap (λ p. if p.timer == 0 then w.lapf.t200 else p.timer) e,
      )

-- Whatever an XID frame says, the window and the frame size never grow, and the sequence variables and
-- the state stay; the working window V(k) stays too, even where it is now above the window.
pub handle_xid-narrows :
    (frame payload : List ℕ) (pf resp : Bool) (w : Link)
    → let l = w.lapf in
      let l' = (handle_xid frame payload pf resp w).lapf in
      (l'.k ≤ l.k)
      × (l'.n201 ≤ l.n201)
      × (l'.v_k ≡ l.v_k)
      × (l'.v_s ≡ l.v_s)
      × (l'.v_r ≡ l.v_r)
      × (l'.v_a ≡ l.v_a)
      × (l'.state ≡ l.state)
unfolding handle_xid negotiated answer_xid call_cllm
handle_xid-narrows frame payload pf resp w = ground arith
