-- ===== src/Factory/Keys.antt =====
-- core/factory/gen_servers.go: the generated servers tell each other their keys. A slice is a
-- function of the index.
use mathlib.Core.Path.{subst}
use dcschain.Base.{
  sym, ℕ, zero, suc, ◌<◌, ◌≡◌, refl, ap, ◌∙◌, ◌≢◌, ◌⊎◌, inl, inr, true, false, Option, none, some,
  pos, Text, Bytes, arith, ltb, ◌==◌, if◌then◌else◌, find, put, find-put, text_eq, text_eq_iff,
  Bool-cases,
}
use dcschain.Common.Name.{node_name, node_name-injective}
use dcschain.Mgmt.Types.{NodeKey, empty_key}
use dcschain.Mgmt.Manager.{NodeManager, update_sm4_key, keyed}

abbrev pub Managers : Type 0
Managers = ℕ → NodeManager

set_at : ℕ → NodeManager → Managers → Managers
set_at i x f k = if k == i then x else f k

-- simulateNodes[j].ServerID.ID.Name
abbrev pub server_name : ℕ → Text
server_name j = node_name (pos j)

-- An entry of the table of server `i` for server `j`.
write : ℕ → ℕ → NodeKey → Managers → Managers
unfolding set_at put
write i j x f = set_at i (record (f i) { nodes_table = put (server_name j) x (f i).nodes_table }) f

abbrev pub entry : ℕ → ℕ → Managers → Option NodeKey
entry a b f = find (server_name b) (f a).nodes_table

-- UpdateSm4Key of server `i` for server `j`
secure : ℕ → ℕ → Bytes → Managers → Managers
unfolding set_at update_sm4_key
secure i j k f = set_at i (update_sm4_key (server_name j) k (f i)) f

write_same : (i j : ℕ) (x : NodeKey) (f : Managers) → entry i j (write i j x f) ≡ some x
unfolding write set_at
write_same i j x f =
    let here : (i == i) ≡ true = ground arith in
    let same : text_eq (server_name j) (server_name j) ≡ true =
      (text_eq_iff (server_name j) (server_name j)).1 refl in
    rw here (find-put (server_name j) (server_name j) x (f i).nodes_table ∙ rw same refl)

write_other :
    (a b i j : ℕ) (x : NodeKey) (f : Managers)
    → (a ≢ i) ⊎ (b ≢ j)
    → entry a b (write i j x f) ≡ entry a b f
unfolding write set_at
write_other a b i j x f other = elim (Bool-cases (a == i)) [
  | inr apart ↦ rw (write, apart) refl
  | inl at ↦ elim (Bool-cases (text_eq (server_name j) (server_name b))) [
    | inr apart ↦
        let here : i ≡ a = ground arith in
        rw (write, at)
          (find-put (server_name j) (server_name b) x (f i).nodes_table
            ∙ rw apart (ap (λ k. entry k b f) here))
    | inl same ↦
        let one =
          node_name-injective (pos j) (pos b)
            ((text_eq_iff (server_name j) (server_name b)).0 same) in
        absurd (ground (arith, other, one))
  ]
]

secure_same :
    (i j : ℕ) (k : Bytes) (f : Managers)
    → entry i j (secure i j k f) ≡ some (keyed (server_name j) k (entry i j f))
unfolding secure write set_at update_sm4_key
secure_same i j k f = write_same i j (keyed (server_name j) k (entry i j f)) f

secure_other :
    (a b i j : ℕ) (k : Bytes) (f : Managers)
    → (a ≢ i) ⊎ (b ≢ j)
    → entry a b (secure i j k f) ≡ entry a b f
unfolding secure write set_at update_sm4_key
secure_other a b i j k f other = write_other a b i j (keyed (server_name j) k (entry i j f)) f other

-- `pk j` is the public key of server `j`, `sm4 i j` the key that GenerateKey gives for a pair.
module _ (pk : ℕ → Bytes) (sm4 : ℕ → ℕ → Bytes) where
  -- The body of the two loops.
  exchange : ℕ → ℕ → Managers → Managers
  exchange i j f =
      if j == i
      then f
      else (let key = record empty_key { name = server_name j; sm2_pub_key = pk j } in
          let g = write i j key f in
          if ltb i j then secure j i (sm4 i j) (secure i j (sm4 i j) g) else g)

  -- The loop over the first `m` servers `j`.
  tell : ℕ → ℕ → Managers → Managers
  unfolding exchange
  tell i zero f = f
  tell i (suc m) f = exchange i m (tell i m f)

  -- The loop over the first `m` servers `i`, of `n`.
  pub tell_all : ℕ → ℕ → Managers → Managers
  unfolding tell
  tell_all n zero f = f
  tell_all n (suc m) f = tell m n (tell_all n m f)

  -- What server `a` has for server `b`.
  abbrev known : ℕ → ℕ → NodeKey
  known a b = record {
    name = server_name b;
    sm2_pub_key = pk b;
    sm4_key = if ltb a b then sm4 a b else none;
  }

  exchange_hit : (a b : ℕ) (f : Managers) → a ≢ b → entry a b (exchange a b f) ≡ some (known a b)
  unfolding exchange keyed
  exchange_hit a b f apart =
      let key = record empty_key { name = server_name b; sm2_pub_key = pk b } in
      let g = write a b key f in
      let differ : (b == a) ≡ false = ground arith in
      elim (Bool-cases (ltb a b)) [
        | inl lower ↦
            rw (exchange, differ, lower)
              (secure_other a b b a (sm4 a b) (secure a b (sm4 a b) g) (inl apart)
                ∙ secure_same a b (sm4 a b) g
                ∙ ap (λ e. some (keyed (server_name b) (sm4 a b) e)) (write_same a b key f))
        | inr higher ↦ rw (exchange, differ, higher) (write_same a b key f)
      ]

  exchange_miss :
      (a b i j : ℕ) (f : Managers)
      → (a ≢ i) ⊎ (b ≢ j)
      → (i < j → (a ≢ j) ⊎ (b ≢ i))
      → entry a b (exchange i j f) ≡ entry a b f
  unfolding exchange
  exchange_miss a b i j f other unpaired =
      let key = record empty_key { name = server_name j; sm2_pub_key = pk j } in
      let g = write i j key f in
      elim (Bool-cases (j == i)) [
        | inl same ↦ rw (exchange, same) refl
        | inr differ ↦ elim (Bool-cases (ltb i j)) [
          | inl lower ↦
              rw (exchange, differ, lower)
                (secure_other a b j i (sm4 i j) (secure i j (sm4 i j) g) (unpaired (ground arith))
                  ∙ secure_other a b i j (sm4 i j) g other
                  ∙ write_other a b i j key f other)
          | inr higher ↦ rw (exchange, differ, higher) (write_other a b i j key f other)
        ]
      ]

  tell_miss :
      (a b i m : ℕ) (f : Managers) → a ≢ i → (i < a → b ≢ i) → entry a b (tell i m f) ≡ entry a b f
  unfolding tell
  tell_miss a b i zero f other unpaired = refl
  tell_miss a b i (suc m) f other unpaired =
      exchange_miss a b i m (tell i m f) (inl other) (λ lower. elim (Bool-cases (ltb i a)) [
        | inl below ↦ inr (unpaired (ground arith))
        | inr above ↦ inl (λ e. ground arith)
      ])
      ∙ tell_miss a b i m f other unpaired

  tell_hit : (a b m : ℕ) (f : Managers) → a ≢ b → b < m → entry a b (tell a m f) ≡ some (known a b)
  unfolding tell
  tell_hit a b zero f apart low = absurd (omega arith)
  tell_hit a b (suc m) f apart low = elim (Bool-cases (b == m)) [
    | inl last ↦
        subst (λ k. entry a b (exchange a k (tell a m f)) ≡ some (known a b)) (ground arith)
          (exchange_hit a b (tell a m f) apart)
    | inr earlier ↦
        exchange_miss a b a m (tell a m f) (inr (ground arith)) (λ lower. inr (λ e. apart (sym e)))
        ∙ tell_hit a b m f apart (ground arith)
  ]

  tell_all_hit :
      (n a b m : ℕ) (f : Managers)
      → a ≢ b
      → a < m
      → b < n
      → entry a b (tell_all n m f) ≡ some (known a b)
  unfolding tell_all
  tell_all_hit n a b zero f apart low fits = absurd (omega arith)
  tell_all_hit n a b (suc m) f apart low fits = elim (Bool-cases (a == m)) [
    | inl last ↦
        subst (λ k. entry a b (tell k n (tell_all n m f)) ≡ some (known a b)) (ground arith)
          (tell_hit a b n (tell_all n m f) apart fits)
    | inr earlier ↦
        tell_miss a b m n (tell_all n m f) (ground arith) (λ below. absurd (ground arith))
        ∙ tell_all_hit n a b m f apart (ground arith) fits
  ]

-- Of two generated servers the lower one ends up with the public key of the higher one and the SM4 key
-- that was generated for the pair; the higher one ends up with the public key of the lower one and
-- no SM4 key.
pub sm4_key_lost :
    (pk : ℕ → Bytes) (sm4 : ℕ → ℕ → Bytes) (n a b : ℕ) (f : Managers)
    → a < b
    → b < n
    → (entry a b (tell_all pk sm4 n n f)
        ≡ some (record { name = server_name b; sm2_pub_key = pk b; sm4_key = sm4 a b }))
      × (entry b a (tell_all pk sm4 n n f)
          ≡ some (record { name = server_name a; sm2_pub_key = pk a; sm4_key = none }))
sm4_key_lost pk sm4 n a b f lower low =
    let up : ltb a b ≡ true = ground arith in
    let down : ltb b a ≡ false = ground arith in
    (
      tell_all_hit pk sm4 n a b n f (omega arith) (omega arith) low ∙ rw up refl,
      tell_all_hit pk sm4 n b a n f (omega arith) low (omega arith) ∙ rw down refl,
    )
