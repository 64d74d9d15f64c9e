-- ===== src/Ids/RoundTrip.antt =====
-- Identifiers and addresses of massa-indexer/src/ids.rs: what is displayed is parsed again.
use massa_history.Base.{
  ℕ, not, ◌≡◌, refl, ap, ◌∙◌, ◌⊎◌, inl, inr, some, [], ◌∷◌, length, arith, ◌==◌, ==_iff, eq→==,
  Bool-cases, if◌then◌else◌,
}
use massa_history.Base.Result.{ok, ok_or, ◌>>=◌, >>=-eq-ok}
use massa_history.Bytes.{Bytes, IsBytes}
use massa_history.Ids.{
  Text, Base58, Family, block, operation, endorsement, letter, FamilyId, Address, of_length,
  decode_single_family, encode_single_family, decode_address, encode_address, parse, from_key_bytes,
  parse_address, address_from_key_bytes, is_user, is_sc, addr_category_user, addr_category_sc,
  category_of, bad_base58,
}

letter-injective : (f g : Family) → letter f ≡ letter g → f ≡ g
letter-injective block block h = refl
letter-injective block operation h = absurd (omega arith)
letter-injective block endorsement h = absurd (omega arith)
letter-injective operation block h = absurd (omega arith)
letter-injective operation operation h = refl
letter-injective operation endorsement h = absurd (omega arith)
letter-injective endorsement block h = absurd (omega arith)
letter-injective endorsement operation h = absurd (omega arith)
letter-injective endorsement endorsement h = refl

of_length-eq-ok :
    (n : ℕ) (raw out : Bytes) → of_length n raw ≡ ok out → (raw ≡ out) × (length out ≡ n)
of_length-eq-ok n raw out h = elim (Bool-cases (length raw == n)) [
  | inl e ↦ (cc (e, h), ap length {x = out} {y = raw} (cc (e, h)) ∙ (==_iff _ _).0 e)
  | inr e ↦ cc (e, h)
]

-- What the category byte of an address becomes when the address is displayed and parsed.
abbrev pub shown_category : ℕ → ℕ
shown_category c = if c == addr_category_sc then addr_category_sc else addr_category_user

category-eq-ok :
    (c k : ℕ) → category_of c ≡ ok k → (k ≡ addr_category_user) ⊎ (k ≡ addr_category_sc)
unfolding category_of
category-eq-ok c k e = ground arith

module _ (b58 : Base58) where
  decode_shown :
      (f : Family) (key : Bytes)
      → length key ≡ 33
      → IsBytes key
      → decode_single_family b58 (letter f) (encode_single_family b58 (letter f) key) ≡ ok key
  unfolding decode_single_family encode_single_family
  decode_shown f key e h =
      rw (eq→== (letter f) (letter f) refl, b58.decode-encode key h, eq→== (length key) 33 e)

  -- An identifier that is rebuilt from key bytes is displayed as a text that parses to it.
  pub parse-from_key_bytes :
      (f : Family) (key : Bytes) (x : FamilyId f)
      → IsBytes key
      → from_key_bytes b58 f key ≡ some x
      → (x.key ≡ key) × (parse b58 f x.text ≡ ok x)
  unfolding from_key_bytes parse
  parse-from_key_bytes f key x h e = elim (Bool-cases (length key == 33)) [
    | inl fits ↦ ground (arith, decode_shown f key ((==_iff _ _).0 fits) h)
    | inr other ↦ cc (e, other)
  ]

  decode-eq-ok :
      (prefix : ℕ) (s : Text) (key : Bytes)
      → decode_single_family b58 prefix s ≡ ok key
      → (payload : Text) × (s ≡ prefix ∷ payload) × (length key ≡ 33)
  unfolding decode_single_family
  decode-eq-ok prefix [] key e = cc e
  decode-eq-ok prefix (c ∷ payload) key e = elim (Bool-cases (c == prefix)) [
    | inl same ↦
        let (raw, _, fits) =
          >>=-eq-ok (ok_or (b58.decode payload) _) (of_length 33) (rw same at e) in
        (payload, ap (λ x. x ∷ payload) ((==_iff _ _).0 same), (of_length-eq-ok 33 raw key fits).1)
    | inr other ↦ cc (e, other)
  ]

  parse-eq-ok :
      (f : Family) (s : Text) (x : FamilyId f)
      → parse b58 f s ≡ ok x
      → (payload : Text) × (s ≡ letter f ∷ payload) × (length x.key ≡ 33) × (x.text ≡ s)
  unfolding parse
  parse-eq-ok f s x e =
      let (key, d, made) = >>=-eq-ok (decode_single_family b58 (letter f) s) _ e in
      let (payload, starts, fits) = decode-eq-ok (letter f) s key d in
      (payload, starts, ground (arith, fits), ground arith)

  -- A text that parses gives an identifier with 33 key bytes that keeps the text, and it parses in
  -- no other family.
  pub parse_sound :
      (f g : Family) (s : Text) (x : FamilyId f)
      → parse b58 f s ≡ ok x
      → (length x.key ≡ 33) × (x.text ≡ s) × ((y : FamilyId g) → parse b58 g s ≡ ok y → f ≡ g)
  parse_sound f g s x e =
      let (p, starts, fits, kept) = parse-eq-ok f s x e in
      (fits, kept, λ y e'. letter-injective f g (ground (arith, starts, (parse-eq-ok g s y e').1)))

  shown_address :
      (c : ℕ) (payload : Bytes)
      → length payload ≡ 33
      → IsBytes payload
      → decode_address b58 (encode_address b58 (c ∷ payload)) ≡ ok (shown_category c ∷ payload)
  unfolding decode_address encode_address
  shown_address c payload e h = elim (Bool-cases (c == addr_category_sc)) [
    | inl sc ↦ rw (sc, b58.decode-encode payload h, eq→== (length payload) 33 e)
    | inr user ↦ rw (user, b58.decode-encode payload h, eq→== (length payload) 33 e)
  ]

  -- An address that is rebuilt from 34 key bytes is displayed as a text that parses to the same
  -- bytes, but for a category that is neither a user's nor a contract's: that one becomes a user's.
  pub parse-address_from_key_bytes :
      (c : ℕ) (payload : Bytes) (a : Address)
      → IsBytes payload
      → address_from_key_bytes b58 (c ∷ payload) ≡ some a
      → (a.key ≡ c ∷ payload)
        × (parse_address b58 a.text
            ≡ ok (record { key = shown_category c ∷ payload; text = a.text }))
  unfolding address_from_key_bytes parse_address
  parse-address_from_key_bytes c payload a h e = elim (Bool-cases (length (c ∷ payload) == 34)) [
    | inl fits ↦ ground (arith, shown_address c payload (omega (arith, (==_iff _ _).0 fits)) h)
    | inr other ↦ cc (e, other)
  ]

  address_parts :
      (c : ℕ) (payload key : Bytes)
      → (category_of c >>= λ category. ok_or (b58.decode payload) bad_base58 >>= λ raw.
          of_length 33 raw >>= λ body. ok (category ∷ body))
        ≡ ok key
      → (k : ℕ) × (body : Bytes) × (key ≡ k ∷ body)
        × (length body ≡ 33)
        × ((k ≡ addr_category_user) ⊎ (k ≡ addr_category_sc))
  address_parts c payload key e =
      let (k, known, e') = >>=-eq-ok (category_of c) _ e in
      let (raw, _, e'') = >>=-eq-ok (ok_or (b58.decode payload) bad_base58) _ e' in
      let (body, fits, made) = >>=-eq-ok (of_length 33 raw) _ e'' in
      (k, body, cc made, (of_length-eq-ok 33 raw body fits).1, category-eq-ok c k known)

  decode_address-eq-ok :
      (s : Text) (key : Bytes)
      → decode_address b58 s ≡ ok key
      → (k : ℕ) × (body : Bytes) × (key ≡ k ∷ body)
        × (length body ≡ 33)
        × ((k ≡ addr_category_user) ⊎ (k ≡ addr_category_sc))
  unfolding decode_address
  decode_address-eq-ok [] key e = cc e
  decode_address-eq-ok (x ∷ []) key e = cc e
  decode_address-eq-ok (x ∷ (c ∷ payload)) key e = elim (Bool-cases (x == b'A')) [
    | inl same ↦ address_parts c payload key (rw same at e)
    | inr other ↦ cc (e, other)
  ]

  -- A parsed address has 34 key bytes, and is a user's or a contract's, never both.
  pub parse_address_sound :
      (s : Text) (a : Address)
      → parse_address b58 s ≡ ok a
      → (length a.key ≡ 34) × (is_user a ≡ not (is_sc a))
  unfolding parse_address is_user is_sc
  parse_address_sound s a e =
      let (key, d, made) = >>=-eq-ok (decode_address b58 s) _ e in
      let (k, body, parts, fits, known) = decode_address-eq-ok s key d in
      let is : a.key ≡ k ∷ body = ground arith in rw is (omega (arith, fits), ground arith)
