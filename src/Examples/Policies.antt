-- ===== src/Examples/Policies.antt =====
-- A renderer and an encoder at one boundary of src/framelink_memory.cpp.
use framelink.Base.{
  ℕ, ◌≡◌, refl, true, false, none, some, List, [], ◌∷◌, arith, All, ◌↔◌, Option, ◌<◌, length,
}
use framelink.Base.Bytes.{put, AreBytes}
use framelink.Memory.{
  ok, incompatible, Requirements, MemoryPath, End, memory_version, validate, validate_path,
  evaluate, combine, combine_loop, evaluate_boundary, encode, decode, wire_size, to_wire, bad_count,
  kind_of,
}
use framelink.Memory.Policy.{HasWords, PathHasWords, Permits, evaluate-Permits}
use framelink.Memory.Agreement.{combine-evaluate}
use framelink.Memory.Boundary.{Fits, Agrees, boundary_Agrees}
use framelink.Memory.Wire.{decode-encode}

abbrev wants : ℕ → ℕ → Requirements
wants usage types = record {
  version = memory_version;
  required_usage = usage;
  preferred_usage = 0;
  allowed_types = types;
  allowed_operations = 3;
  reserved = 0 ∷ 0 ∷ 0 ∷ [];
}

abbrev offers : ℕ → MemoryPath
offers operations = record {
  version = memory_version;
  resource_type = 2;
  supported_usage = 7;
  operations = operations;
  reserved = 0 ∷ 0 ∷ 0 ∷ 0 ∷ [];
}

wants_words : HasWords (wants 5 6)
wants_words = record {
  required = omega arith;
  preferred = omega arith;
  types = omega arith;
  operations = omega arith;
}

others_words : HasWords (wants 1 1)
others_words = record {
  required = omega arith;
  preferred = omega arith;
  types = omega arith;
  operations = omega arith;
}

offers_words : PathHasWords (offers 1)
offers_words = record { kind = omega arith; supported = omega arith; operations = omega arith }

wants_ok : validate (some (wants 5 6)) ≡ ok
unfolding validate
wants_ok = refl

offers_ok : validate_path (some (offers 1)) ≡ ok
unfolding validate_path
offers_ok = refl

evaluate-Permits_example :
    ((evaluate (some (wants 5 6)) (some (offers 1)) true).0 ≡ ok) ↔ Permits (wants 5 6) (offers 1)
evaluate-Permits_example =
    evaluate-Permits (wants 5 6) (offers 1) wants_words offers_words wants_ok offers_ok

abbrev together : Requirements
together = wants 5 2

abbrev two : List Requirements
two = wants 5 6 ∷ wants 1 2 ∷ []

two_words : All HasWords two
two_words = (
  wants_words,
  (
    record {
      required = omega arith;
      preferred = omega arith;
      types = omega arith;
      operations = omega arith;
    },
    tt,
  ),
)

two_combined : combine (some two) true ≡ (ok, some together)
unfolding combine combine_loop validate
two_combined = refl

combine-evaluate_example :
    (validate (some together) ≡ ok)
    × (((evaluate (some together) (some (offers 1)) true).0 ≡ ok)
        ↔ All (λ r. (evaluate (some r) (some (offers 1)) true).0 ≡ ok) two)
combine-evaluate_example =
    combine-evaluate two together (offers 1) two_words offers_words two_combined offers_ok

abbrev clash : List Requirements
clash = wants 5 6 ∷ wants 1 1 ∷ []

clash_refused : combine (some clash) true ≡ (incompatible, none)
unfolding combine combine_loop validate
clash_refused = refl

abbrev ends : List End
ends =
    record { requirements = wants 5 6; path = offers 1 }
    ∷ record { requirements = wants 1 1; path = offers 1 }
    ∷ []

boundary_Agrees_example :
    ((evaluate_boundary (some ends) true).0 ≡ ok)
    ↔ ((bad_count (length ends) ≡ false) × All (Fits (kind_of ends)) ends × All (Agrees ends) ends)
boundary_Agrees_example =
    boundary_Agrees ends ((wants_words, offers_words), ((others_words, offers_words), tt))

abbrev message : List ℕ
message =
    70
    ∷ 77
    ∷ 82
    ∷ 49
    ∷ 1
    ∷ 0
    ∷ 0
    ∷ 0
    ∷ 5
    ∷ 0
    ∷ 0
    ∷ 0
    ∷ 0
    ∷ 0
    ∷ 0
    ∷ 0
    ∷ 6
    ∷ 0
    ∷ 0
    ∷ 0
    ∷ 3
    ∷ 0
    ∷ 0
    ∷ 0
    ∷ framelink.Base.replicate 40 0

message_encoded : encode (some (wants 5 6)) (some wire_size) ≡ (ok, some message)
unfolding encode to_wire validate put
message_encoded = refl

message_bytes : AreBytes message
message_bytes = search (arith)

message_decoded : decode (some message) true ≡ (ok, some (wants 5 6))
message_decoded = decode-encode (wants 5 6) message wants_words refl message_encoded

decode-encode_example : decode (some message) true ≡ (ok, some (wants 5 6))
decode-encode_example = decode-encode (wants 5 6) message wants_words refl message_encoded
