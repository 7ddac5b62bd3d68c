-- ===== src/Memory/Wire.antt =====
-- The requirements message of src/framelink_memory.cpp: what flMemoryRequirementsEncode writes,
-- flMemoryRequirementsDecode reads back, and it reads nothing else.
use framelink.Base.{
  ℕ, zero, suc, ◌-◌, ◌≤◌, ◌≡◌, refl, sym, ap, ap₂, ◌∙◌, subst, Bool, true, ◌&&◌, some, List, [],
  ◌∷◌, ◌++◌, ◌==◌, ==_iff, arith, length, replicate,
}
use framelink.Base.Bytes.{
  put, get, AreBytes, length-put_append, get-put, get-AreBytes, length-get, put-get,
}
use framelink.Memory.{
  ok, Requirements, validate, all_zero, memory_version, magic, to_wire, wire_size, encode, decode,
  fields_of_wire,
}
use framelink.Memory.Policy.{HasWords, validate-IsValid}

replicate_of_zero : (zs : List ℕ) (n : ℕ) → length zs ≡ n → all_zero zs ≡ true → zs ≡ replicate n 0
replicate_of_zero [] zero l z = refl
replicate_of_zero [] (suc n) l z = absurd (omega (arith, l))
replicate_of_zero (x ∷ zs) zero l z = absurd (omega (arith, l))
replicate_of_zero (x ∷ zs) (suc n) l z =
    let (first, rest) = both (x == 0) (all_zero zs) z in
    ap₂ ◌∷◌ ((==_iff x 0).0 first) (replicate_of_zero zs n (omega (arith, l)) rest)
  where
    both : (a b : Bool) → (a && b) ≡ true → (a ≡ true) × (b ≡ true)
    both a b h = ground arith

-- The part of the message behind magic and version.
body : Requirements → List ℕ
body r =
    put 4 r.required_usage
    ++ (put 4 r.preferred_usage
        ++ (put 4 r.allowed_types ++ (put 4 r.allowed_operations ++ replicate 40 0)))

fields-body :
    (r : Requirements)
    → HasWords r
    → fields_of_wire (body r)
      ≡ (record r { version = memory_version; reserved = 0 ∷ 0 ∷ 0 ∷ [] }, replicate 40 0)
unfolding fields_of_wire body
fields-body r w = rw (get-put 4 r.required_usage _ w.required) (
    rw (get-put 4 r.preferred_usage _ w.preferred) (
      rw (get-put 4 r.allowed_types _ w.types)
        (rw (get-put 4 r.allowed_operations _ w.operations) refl)))

to_wire-body : (r : Requirements) → to_wire r ≡ put 4 magic ++ (put 4 r.version ++ body r)
unfolding to_wire body
to_wire-body r = refl

version_of_wire : (bs : List ℕ) → (fields_of_wire bs).0.version ≡ memory_version
unfolding fields_of_wire
version_of_wire bs = refl

length-to_wire : (r : Requirements) → length (to_wire r) ≡ wire_size
unfolding to_wire
length-to_wire r = simp length-put_append (omega arith)

get_version :
    (r : Requirements)
    → r.version ≡ memory_version
    → get 4 (to_wire r) ≡ (magic, put 4 r.version ++ body r)
      × (get 4 (put 4 r.version ++ body r) ≡ (memory_version, body r))
unfolding to_wire body
get_version r e = (
  get-put 4 magic _ (omega arith),
  get-put 4 r.version _ (omega (arith, e)) ∙ ap (λ v. (v, body r)) e,
)

decode-to_wire :
    (r : Requirements)
    → HasWords r
    → length r.reserved ≡ 3
    → validate (some r) ≡ ok
    → decode (some (to_wire r)) true ≡ (ok, some r)
unfolding decode
decode-to_wire r w l e =
    let v = validate-IsValid r w e in
    let (first, second) = get_version r v.version in
    let whole : record r { version = memory_version; reserved = 0 ∷ 0 ∷ 0 ∷ [] } ≡ r = λ i.
      record r {
        version = sym v.version i;
        reserved = sym (replicate_of_zero r.reserved 3 l v.reserved) i;
      } in
    rw (length-to_wire r, first) (rw second (rw (fields-body r w) (rw whole (rw e refl))))

encode_parts :
    (r : Requirements) (bs : List ℕ)
    → encode (some r) (some wire_size) ≡ (ok, some bs)
    → (validate (some r) ≡ ok) × (to_wire r ≡ bs)
unfolding encode
encode_parts r bs h = ground arith

encode_valid :
    (r : Requirements)
    → validate (some r) ≡ ok
    → encode (some r) (some wire_size) ≡ (ok, some (to_wire r))
unfolding encode
encode_valid r e = rw e refl

-- Valid requirements with words of 32 bits and three reserved words survive the wire: what the
-- encoder writes for them decodes to them.
pub decode-encode :
    (r : Requirements) (bs : List ℕ)
    → HasWords r
    → length r.reserved ≡ 3
    → encode (some r) (some wire_size) ≡ (ok, some bs)
    → decode (some bs) true ≡ (ok, some r)
decode-encode r bs w l h =
    let (valid, written) = encode_parts r bs h in
    subst (λ t. decode (some t) true ≡ (ok, some r)) written (decode-to_wire r w l valid)

decode_parts :
    (bs : List ℕ) (r : Requirements)
    → decode (some bs) true ≡ (ok, some r)
    → let back = (get 4 (get 4 bs).1).1 in
      (length bs ≡ 64)
      × ((get 4 bs).0 ≡ magic)
      × ((get 4 (get 4 bs).1).0 ≡ memory_version)
      × (all_zero (fields_of_wire back).1 ≡ true)
      × (validate (some r) ≡ ok)
      × ((fields_of_wire back).0 ≡ r)
unfolding decode
decode_parts bs r h = ground arith

-- n bytes are read from the front of bs, and put back.
read_back :
    (bs : List ℕ) (k : ℕ)
    → AreBytes bs
    → length bs ≡ k
    → 4 ≤ k
    → (bs ≡ put 4 (get 4 bs).0 ++ (get 4 bs).1)
      × AreBytes (get 4 bs).1
      × (length (get 4 bs).1 ≡ k - 4)
read_back bs k b l le = (
  sym (put-get 4 bs b (omega (arith, l))),
  get-AreBytes 4 bs b,
  length-get 4 bs b ∙ ap (λ (t : ℕ). t - 4) l,
)

body_back :
    (bs : List ℕ)
    → AreBytes bs
    → length bs ≡ 56
    → all_zero (fields_of_wire bs).1 ≡ true
    → body (fields_of_wire bs).0 ≡ bs
unfolding fields_of_wire body
body_back bs b l z =
    let r1 = (get 4 bs).1 in
    let r2 = (get 4 r1).1 in
    let r3 = (get 4 r2).1 in
    let (e1, b1, l1) = read_back bs 56 b l (omega arith) in
    let (e2, b2, l2) = read_back r1 52 b1 l1 (omega arith) in
    let (e3, b3, l3) = read_back r2 48 b2 l2 (omega arith) in
    let (e4, b4, l4) = read_back r3 44 b3 l3 (omega arith) in
    let zeros = replicate_of_zero (get 4 r3).1 40 l4 z in
    sym (
      e1
      ∙ ap (λ t. put 4 (get 4 bs).0 ++ t)
          (e2
            ∙ ap (λ t. put 4 (get 4 r1).0 ++ t)
                (e3
                  ∙ ap (λ t. put 4 (get 4 r2).0 ++ t)
                      (e4 ∙ ap (λ t. put 4 (get 4 r3).0 ++ t) zeros))))

-- The decoder accepts only what the encoder writes: bytes that decode are those of the message.
pub encode-decode :
    (bs : List ℕ) (r : Requirements)
    → AreBytes bs
    → decode (some bs) true ≡ (ok, some r)
    → encode (some r) (some wire_size) ≡ (ok, some bs)
encode-decode bs r b h =
    let (l, first, second, zeros, valid, same) = decode_parts bs r h in
    let (e1, b1, l1) = read_back bs 64 b l (omega arith) in
    let (e2, b2, l2) = read_back (get 4 bs).1 60 b1 l1 (omega arith) in
    let tail = body_back (get 4 (get 4 bs).1).1 b2 l2 zeros in
    let version : r.version ≡ (get 4 (get 4 bs).1).0 =
      ap (λ (t : Requirements). t.version) (sym same) ∙ version_of_wire _ ∙ sym second in
    encode_valid r valid
    ∙ ap (λ (t : List ℕ). (ok, some t))
        (to_wire-body r
          ∙ ap₂ (λ (m : ℕ) (t : List ℕ). put 4 m ++ t) (sym first)
              (ap₂ (λ (v : ℕ) (t : List ℕ). put 4 v ++ t) version (sym (ap body same) ∙ tail)
                ∙ sym e2)
          ∙ sym e1)
