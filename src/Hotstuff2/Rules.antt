-- ===== src/Hotstuff2/Rules.antt =====
-- core/hotstuff_2.go and propose.go: the tests and the small operations that the handlers share.
use dcschain.Base.{
  ℕ, ◌+◌, Bool, false, ◌&&◌, ◌||◌, List, [], ◌∷◌, Option, none, some, ℤ, pos, ◌-ℤ◌, ◌==◌, eq_ℤ,
  ltb_ℤ, if◌then◌else◌, Bytes, map,
}
use dcschain.Common.Encode.{HsNode}
use dcschain.Crypto.Tss.{Signer, threshold_sign_verify, combine_sig}
use dcschain.BasicHotstuff.Rules.{or_nil}
use dcschain.Hotstuff2.Types.{
  StateType, new_view, propose, vote1, prepare, vote2, QuromCert, qc_to_sign_msg_byte, H2Msg,
  message_to_byte,
}
use dcschain.Hotstuff2.State.{Hotstuff2}

unfoldable pub matching_qc : QuromCert → StateType → ℤ → Bool
matching_qc q code cur_view = q.q_type == code && eq_ℤ q.view_number cur_view

unfoldable pub check_qc : Signer → QuromCert → StateType → ℤ → ℤ → Bool
unfolding matching_qc
check_qc σ q code view_number height =
    matching_qc q code view_number
    && (eq_ℤ q.height height && threshold_sign_verify σ (qc_to_sign_msg_byte q) q.sign)

unfoldable pub matching_msg : H2Msg → StateType → ℤ → Bool
matching_msg m code cur_view = m.m_type == code && eq_ℤ m.view_number cur_view

unfoldable pub check_msg : H2Msg → StateType → ℤ → Bool
unfolding matching_msg
check_msg m code view_num =
    if code == new_view
    then matching_msg m code (view_num -ℤ pos 1)
    else if (code == propose || code == vote1) || (code == prepare || code == vote2)
    then matching_msg m code view_num
    else false

-- CombineSign over a message that the voters signed; nil where kyber returns an error
unfoldable pub combine_sign : Signer → List H2Msg → H2Msg → Bytes
unfolding or_nil message_to_byte
combine_sign σ votes msg_sign =
    or_nil (combine_sig σ (message_to_byte msg_sign) (map (λ m. m.cons_sign) votes))

unfoldable pub create_leaf : Hotstuff2 → Bytes → HsNode
create_leaf s parent = record { parent_hash = parent; cur_hash = s.blk_store.cur_blk_hash }

-- The loop of GetHighestCertIndex from index `i` on.
unfoldable pub highest_from : ℕ → (max1 max2 : ℕ) → (view1 view2 : ℤ) → List H2Msg → ℕ × ℕ
highest_from i max1 max2 view1 view2 [] = (max1, max2)
highest_from i max1 max2 view1 view2 (m ∷ ms) =
    let up1 = ltb_ℤ view1 m.justify1.view_number in
    let up2 = ltb_ℤ view2 m.justify2.view_number in
    highest_from (i + 1) (if up1 then i else max1) (if up2 then i else max2)
      (if up1 then m.justify1.view_number else view1)
      (if up2 then m.justify1.view_number else view2) ms

-- GetHighestCertIndex; `none` is its panic on an empty slice
unfoldable pub get_highest_cert_index : List H2Msg → Option (ℕ × ℕ)
unfolding highest_from
get_highest_cert_index [] = none
get_highest_cert_index (m ∷ ms) =
    some (highest_from 0 0 0 m.justify1.view_number m.justify2.view_number (m ∷ ms))
