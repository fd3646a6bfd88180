-- ===== src/Common/Name.antt =====
-- Names of replicas: "r_" + strconv.Itoa(id), as view.go and every GetNodeName build them.
use dcschain.Base.{
  ℕ, zero, suc, ◌+◌, ◌-◌, ◌*◌, ◌/◌, ◌%◌, ◌≤◌, ◌<◌, ◌≡◌, refl, sym, ap, ◌∙◌, true, false, [], ◌∷◌,
  arith, ltb, ◌==◌, if◌then◌else◌, Text, codes, ℤ, pos, negsuc, Bool-cases, inl, inr, ◌++◌,
}

-- The decimal digits of `n` before `acc`.
to_digits : ℕ → ℕ → Text → Text
to_digits zero n acc = acc
to_digits (suc f) n acc = elim (ltb n 10) [
  | true ↦ (48 + n) ∷ acc
  | false ↦ to_digits f (n / 10) ((48 + n % 10) ∷ acc)
]

-- strconv.Itoa
unfoldable pub itoa : ℤ → Text
unfolding to_digits
itoa (pos n) = to_digits (suc n) n []
itoa (negsuc n) = b'-' ∷ to_digits (suc (suc n)) (suc n) []

parse_from : ℕ → Text → ℕ
parse_from acc [] = acc
parse_from acc (d ∷ ds) = parse_from (acc * 10 + (d - 48)) ds

parse_from-to_digits :
    (f n : ℕ) (acc : Text) → n < f → parse_from 0 (to_digits f n acc) ≡ parse_from n acc
unfolding to_digits parse_from
parse_from-to_digits zero n acc h = elim h [ ]
parse_from-to_digits (suc f) n acc h = elim (Bool-cases (ltb n 10)) [
  | inl small ↦ rw (small, to_digits) (ap (λ (k : ℕ). parse_from k acc) (omega arith))
  | inr large ↦
      rw (large, to_digits)
        (parse_from-to_digits f (n / 10) ((48 + n % 10) ∷ acc) (ground arith)
          ∙ ap (λ (k : ℕ). parse_from k acc) (omega arith))
]

-- The first digit is no minus sign.
head_digit :
    (f n : ℕ) (acc : Text) → n < f → (c : ℕ) × (r : Text) × (to_digits f n acc ≡ c ∷ r) × (48 ≤ c)
unfolding to_digits
head_digit zero n acc h = elim h [ ]
head_digit (suc f) n acc h = elim (Bool-cases (ltb n 10)) [
  | inl small ↦ (48 + n, acc, rw (small, to_digits), omega arith)
  | inr large ↦ rw (large, to_digits) (head_digit f (n / 10) ((48 + n % 10) ∷ acc) (ground arith))
]

parse : Text → ℤ
parse [] = pos 0
parse (c ∷ r) = if c == b'-' then negsuc (parse_from 0 r - 1) else pos (parse_from 0 (c ∷ r))

parse-itoa : (i : ℤ) → parse (itoa i) ≡ i
unfolding parse itoa
parse-itoa (pos n) =
    let (c, r, e, low) = head_digit (suc n) n [] (omega arith) in
    let value : parse_from 0 (to_digits (suc n) n []) ≡ n =
      parse_from-to_digits (suc n) n [] (omega arith) ∙ unfold parse_from in refl in
    rw (e, parse) (ground (arith, rw e at value))
parse-itoa (negsuc n) =
    let value : parse_from 0 (to_digits (suc (suc n)) (suc n) []) ≡ suc n =
      parse_from-to_digits (suc (suc n)) (suc n) [] (omega arith) ∙ unfold parse_from in refl in
    rw value (ap negsuc (omega arith))

-- "r_" + strconv.Itoa(id)
unfoldable pub node_name : ℤ → Text
unfolding itoa
node_name i = codes "r_" ++ itoa i

drop_two : Text → Text
drop_two (a ∷ b ∷ r) = r
drop_two r = r

-- Two replicas have the same name only if they are the same.
pub node_name-injective : (i j : ℤ) → node_name i ≡ node_name j → i ≡ j
unfolding node_name drop_two
node_name-injective i j e = sym (parse-itoa i) ∙ ap (λ t. parse (drop_two t)) e ∙ parse-itoa j
