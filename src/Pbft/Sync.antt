-- ===== src/Pbft/Sync.antt =====
-- core/pbft.go: what a replica has after SyncInfo on what AddSyncInfo wrote.
use dcschain.Base.{
  ◌≡◌, refl, ◌↔◌, ap, suc, ◌%◌, ◌-◌, pos_part, neg_part, [], some, ℤ, pos, negsuc, ◌≤ℤ◌, ◌<ℤ◌,
  arith, Bytes, to_byte,
}
use dcschain.Common.View
use dcschain.Pbft.State.{Pbft}
use dcschain.Pbft.Core.{SyncMsg, add_sync_info, first_byte, sync_info}

to_byte_iff : (n : ℤ) → (pos (to_byte n) ≡ n) ↔ ((pos 0 ≤ℤ n) × (n <ℤ pos 256))
unfolding to_byte
to_byte_iff (pos n) =
    ((λ e. let l : n % 256 ≡ n = ap pos_part e in omega arith), (λ h. ap pos (omega arith)))
to_byte_iff (negsuc n) =
    ((λ e. let l : 0 ≡ suc n = ap neg_part e in absurd (omega arith)), (λ h. absurd (omega arith)))

-- `b` is the low byte of `n`, as `byte(n)` of Go's two's complement.
abbrev pub LowByteOf : ℤ → ℤ → Type 0
LowByteOf (pos n) b = b ≡ pos (n % 256)
LowByteOf (negsuc n) b = b ≡ pos (255 - n % 256)

to_byte-LowByteOf : (n : ℤ) → LowByteOf n (pos (to_byte n))
unfolding to_byte
to_byte-LowByteOf (pos n) = refl
to_byte-LowByteOf (negsuc n) = refl

-- SyncInfo on a message that held no block and no node before AddSyncInfo wrote to it gives the
-- replica the view number of the writer, the given leader and the low byte of the writer's
-- sequence number, which is that number only from 0 to 255; the phase and the logs stay.
pub sync_info_low_byte :
    (pk : Bytes) (s u : Pbft) (m : SyncMsg) (leader : ℤ)
    → m.block ≡ []
    → m.hs_nodes ≡ []
    → (t : Pbft) × (sync_info (add_sync_info pk s m) leader u ≡ some t)
      × (t.view ≡ record (u.view) { view_number = s.view.view_number; leader = leader })
      × LowByteOf s.sequence_num t.sequence_num
      × ((t.sequence_num ≡ s.sequence_num)
          ↔ ((pos 0 ≤ℤ s.sequence_num) × (s.sequence_num <ℤ pos 256)))
      × (t.cur_phase ≡ u.cur_phase)
      × (t.msg_log ≡ u.msg_log)
unfolding sync_info add_sync_info first_byte View.update_view
sync_info_low_byte pk s u m leader b n =
    rw (b, n)
      (_, refl, refl, to_byte-LowByteOf s.sequence_num, to_byte_iff s.sequence_num, refl, refl)
