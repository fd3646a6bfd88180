-- ===== src/Pbft/Encode.antt =====
-- orderer/consensus/pbft/types/message.go: the bytes of messages, which are what is signed.
use dcschain.Base.{
  ℕ, Bool, true, false, List, [], ◌∷◌, ◌++◌, ℤ, to_byte, if◌then◌else◌, Bytes, elems,
}
use dcschain.Pbft.Types.{StateType, VcMsg, Pm, Head, PMsgs, nil, cons, PMsg}

-- The bytes that Message2Byte and VCMsg2Byte share, without the sending node and with it.
head_bytes : StateType → ℤ → ℤ → Bytes → List ℕ
unfolding to_byte
head_bytes m_type view_number seq_num digest =
    m_type ∷ to_byte view_number ∷ to_byte seq_num ∷ elems digest

unfoldable pub vc_msg_to_byte : VcMsg → Bool → List ℕ
unfolding head_bytes
vc_msg_to_byte m named =
    head_bytes m.m_type m.view_number m.seq_num m.digest ++ (if named then m.send_node else [])

-- Message2Byte(0) and Message2Byte(1)
unfoldable pub short_to_byte : Head → List ℕ
unfolding head_bytes
short_to_byte h = head_bytes h.m_type h.view_number h.seq_num h.digest

unfoldable pub named_to_byte : Head → List ℕ
unfolding short_to_byte
named_to_byte h = short_to_byte h ++ h.send_node

-- The loops of Message2Byte over a slice of messages.
each_to_byte : (Head → List ℕ) → PMsgs → List ℕ
each_to_byte f nil = []
each_to_byte f (cons h ps cs vs os ms) = f h ++ each_to_byte f ms

named_vc_msgs : List VcMsg → List ℕ
unfolding vc_msg_to_byte
named_vc_msgs [] = []
named_vc_msgs (m ∷ ms) = vc_msg_to_byte m true ++ named_vc_msgs ms

unfoldable pub pm_to_byte : Pm → List ℕ
unfolding vc_msg_to_byte named_vc_msgs
pm_to_byte pm = vc_msg_to_byte pm.pre_prepare_msg false ++ named_vc_msgs pm.prepare_msgs

pms_to_byte : List Pm → List ℕ
unfolding pm_to_byte
pms_to_byte [] = []
pms_to_byte (p ∷ ps) = pm_to_byte p ++ pms_to_byte ps

-- Message2Byte(2), of view-change messages; a nil pointer in PSet is left out
unfoldable pub view_change_to_byte : PMsg → List ℕ
unfolding each_to_byte pms_to_byte named_to_byte short_to_byte
view_change_to_byte m =
    short_to_byte m.head
    ++ (each_to_byte (λ h. named_to_byte h) m.c_set ++ (pms_to_byte m.p_set ++ m.head.send_node))

-- Message2Byte(3), of new-view messages
unfoldable pub new_view_to_byte : PMsg → List ℕ
unfolding each_to_byte short_to_byte to_byte
new_view_to_byte m =
    m.head.m_type
    ∷ to_byte m.head.view_number
    ∷ (each_to_byte (λ h. short_to_byte h) m.v_set ++ each_to_byte (λ h. short_to_byte h) m.o_set)
