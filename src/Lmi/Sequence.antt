-- ===== src/Lmi/Sequence.antt =====
-- The sequence numbers of the status exchange go round 1 to 255.
use vfrs.Common.{ℕ, zero, suc, ◌+◌, ◌-◌, ◌%◌, ◌<◌, ◌≡◌, arith}
use vfrs.Lmi.{lmi_inc_seq}

-- `k` exchanges
unfoldable pub advance : ℕ → ℕ → ℕ
advance zero seq = seq
advance (suc k) seq = lmi_inc_seq (advance k seq)

-- After any number of exchanges the sequence number, which was not 0, is the one that many places on
-- in the cycle of 1 to 255: it is never 0, and 255 exchanges bring it back.
pub lmi_inc_seq_cycle : (k seq : ℕ) → 0 < seq → seq < 256 → advance k seq ≡ (seq - 1 + k) % 255 + 1
unfolding advance lmi_inc_seq
lmi_inc_seq_cycle zero seq p l = omega arith
lmi_inc_seq_cycle (suc k) seq p l = rw (lmi_inc_seq_cycle k seq p l) (ground arith)
