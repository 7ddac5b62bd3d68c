-- ===== src/Runtime/Directory.antt =====
-- What a rendezvous directory of src/runtime/av_rendezvous.cpp holds behind publishing and closing,
-- and what a reader makes of it.
use framelink.Base.{
  ℕ, zero, suc, ◌*◌, ◌/◌, ◌%◌, ◌≤◌, ◌<◌, ◌≡◌, refl, sym, ap, ap₂, ◌∙◌, subst, Bool, true, false,
  not, ◌&&◌, ◌||◌, Option, none, some, List, [], ◌∷◌, ◌==◌, if◌then◌else◌, length, take, arith, ◌≢◌,
  Bool-cases, inl, inr, &&_true, bit_or, take_all,
}
use framelink.Base.Bytes.{or_shifted}
use framelink.Session.{same_id}
use framelink.Session.Replacement.{same_id-eq, same_id_self}
use framelink.Runtime.Rendezvous.{
  Endpoint, Error, encode_endpoint, checked, decode_endpoint, transfer, secure_random, FileStat,
  check, open_dir, DirectoryAnswers, Files, PublishAnswers, Ending, published, refused, waiting,
  finish_record, place_record, bad_lock, place_in, named, read_in, validated, owned_by, publish,
  unlinked, read_record, is_record, lock_unavailable, owner_active, cannot_create_record,
  cannot_publish, close, decoded, read_endpoint,
}

-- The token of an endpoint has 32 bytes.
abbrev pub HasSizes : Endpoint → Type 0
HasSizes e = (e.port < 65536) × (length e.token ≡ 32)

-- `b[4] | b[5] << 8`
port_joined : (p : ℕ) → bit_or (p % 256) (p / 256 * 256) ≡ p
port_joined p = or_shifted 8 (p % 256) (p / 256) (omega arith) ∙ omega arith

decode_endpoint-encode_endpoint :
    (e : Endpoint) → HasSizes e → decode_endpoint (encode_endpoint e) ≡ checked e
unfolding decode_endpoint encode_endpoint same_id
decode_endpoint-encode_endpoint e (hp, ht) = rw ht (
    ap₂ (λ p t. checked (record { port = p; token = t })) (port_joined e.port)
      (take_all 32 e.token (omega arith)))

-- What publishing makes of the owner and of the files, on each of its endings.
pub record Published (unlinks : Bool) (old : Option Endpoint) (fs : Files) (e : Endpoint)
    (r : Option Endpoint × Files × Ending) : Type 0 where
  pub done :
      r.2 ≡ published
      → (r.0 ≡ some e) × (r.1 ≡ record { endpoint = some (encode_endpoint e); temporary = none })
  pub readable : r.2 ≡ published → decode_endpoint (encode_endpoint e) ≡ (some e, none)
  pub undone :
      (error : Error)
      → r.2 ≡ refused error
      → (r.0 ≡ old)
        × (r.1.endpoint ≡ fs.endpoint)
        × (unlinks ≡ true → fs.temporary ≡ none → r.1.temporary ≡ none)
  pub unfinished : r.2 ≡ waiting → r.1.endpoint ≡ fs.endpoint

-- The same of the files alone.
record Placed (unlinks : Bool) (fs : Files) (bytes : List ℕ) (r : Files × Ending) : Type 0 where
  pub done : r.1 ≡ published → r.0 ≡ record { endpoint = some bytes; temporary = none }
  pub endpoint : (error : Error) → r.1 ≡ refused error → r.0.endpoint ≡ fs.endpoint
  pub temporary :
      (error : Error)
      → r.1 ≡ refused error
      → unlinks ≡ true
      → fs.temporary ≡ none
      → r.0.temporary ≡ none
  pub unfinished : r.1 ≡ waiting → r.0.endpoint ≡ fs.endpoint

refused-Placed :
    (u : Bool) (fs : Files) (bytes : List ℕ) (error : Error) → Placed u fs bytes (fs, refused error)
refused-Placed u fs bytes error = record {
  done = λ h. cc;
  endpoint = λ _ _. refl;
  temporary = λ _ _ _ h. h;
  unfinished = λ _. refl;
}

Placed-if :
    (u : Bool) (fs : Files) (bytes : List ℕ) (b : Bool) (x y : Files × Ending)
    → Placed u fs bytes x
    → Placed u fs bytes y
    → Placed u fs bytes (if b then x else y)
Placed-if u fs bytes true x y h k = h
Placed-if u fs bytes false x y h k = k

finish_record-Placed :
    (a : PublishAnswers) (fs : Files) (bytes : List ℕ) (o : Option Bool)
    → Placed a.unlinks fs bytes (finish_record a fs bytes o)
unfolding finish_record
finish_record-Placed a fs bytes none = record {
  done = λ h. cc;
  endpoint = λ _ h. cc;
  temporary = λ _ h _ _. cc;
  unfinished = λ _. refl;
}
finish_record-Placed a fs bytes (some false) = record {
  done = λ h. cc;
  endpoint = λ _ _. refl;
  temporary = λ _ _ u _. rw u refl;
  unfinished = λ h. cc;
}
finish_record-Placed a fs bytes (some true) =
    Placed-if a.unlinks fs bytes (not a.syncs || not a.renames)
      (record fs { temporary = unlinked a.unlinks (some bytes) }, refused cannot_publish)
      (record { endpoint = some bytes; temporary = none }, published)
      (record {
        done = λ h. cc;
        endpoint = λ _ _. refl;
        temporary = λ _ _ u _. rw u refl;
        unfinished = λ h. cc;
      })
      (record {
        done = λ _. refl;
        endpoint = λ _ h. cc;
        temporary = λ _ h _ _. cc;
        unfinished = λ h. cc;
      })

place_in-Placed :
    (euid : ℕ) (a : PublishAnswers) (fs : Files) (bytes : List ℕ) (o : Option Error)
    → Placed a.unlinks fs bytes (place_in euid a fs bytes o)
unfolding place_in
place_in-Placed euid a fs bytes (some error) = refused-Placed a.unlinks fs bytes error
place_in-Placed euid a fs bytes none =
    let no = refused-Placed a.unlinks fs bytes in
    Placed-if a.unlinks fs bytes (bad_lock euid a.lock) (fs, refused lock_unavailable) _
      (no lock_unavailable)
      (Placed-if a.unlinks fs bytes (not a.locks) (fs, refused owner_active) _ (no owner_active)
        (Placed-if a.unlinks fs bytes (not a.creates) (fs, refused cannot_create_record) _
          (no cannot_create_record)
          (finish_record-Placed a fs bytes (transfer a.writes (length bytes) 0))))

named-Placed :
    (u : Bool) (fs : Files) (bytes : List ℕ) (o : Option (Option Error)) (r : Files × Ending)
    → Placed u fs bytes r
    → Placed u fs bytes (named o fs r)
named-Placed u fs bytes none r h = record {
  done = λ h. cc;
  endpoint = λ _ _. refl;
  temporary = λ _ _ _ h. h;
  unfinished = λ _. refl;
}
named-Placed u fs bytes (some (some error)) r h = refused-Placed u fs bytes error
named-Placed u fs bytes (some none) r h = h

owned_by-Published :
    (u : Bool) (fs : Files) (e : Endpoint) (r : Files × Ending)
    → Placed u fs (encode_endpoint e) r
    → (r.1 ≡ published → decode_endpoint (encode_endpoint e) ≡ (some e, none))
    → Published u none fs e (owned_by e r)
owned_by-Published u fs e (fs', published) h k = record {
  done = λ _. (refl, h.done refl);
  readable = k;
  undone = λ _ h. cc;
  unfinished = λ h. cc;
}
owned_by-Published u fs e (fs', refused error) h k = record {
  done = λ h. cc;
  readable = λ h. cc;
  undone = λ _ _. (refl, h.endpoint error refl, h.temporary error refl);
  unfinished = λ h. cc;
}
owned_by-Published u fs e (fs', waiting) h k = record {
  done = λ h. cc;
  readable = λ h. cc;
  undone = λ _ h. cc;
  unfinished = λ _. h.unfinished refl;
}

validated-Published :
    (u : Bool) (fs : Files) (e : Endpoint) (d : Option Endpoint × Option Error) (r : Files × Ending)
    → decode_endpoint (encode_endpoint e) ≡ d
    → (d.1 ≡ none → d ≡ (some e, none))
    → Placed u fs (encode_endpoint e) r
    → Published u none fs e (owned_by e (validated d fs r))
validated-Published u fs e (o, some error) r h k placed =
    owned_by-Published u fs e (fs, refused error) (refused-Placed u fs (encode_endpoint e) error)
      (λ h. cc)
validated-Published u fs e (o, none) r h k placed =
    owned_by-Published u fs e r placed (λ _. h ∙ k refl)

checked-whole : (e : Endpoint) → (checked e).1 ≡ none → checked e ≡ (some e, none)
unfolding checked
checked-whole e h = ground (arith, h)

-- For an endpoint of a 16-bit port and a 32-byte token, whatever the system calls answer: where
-- publish() succeeds, the owner has the endpoint, the record is its encoding and decodes to it, and no
-- temporary file is left. Where it is refused, the owner and the record are as before, and it leaves
-- no temporary file where none was and where its unlinkat(), if it comes to that, succeeds. While it waits for a call, the record is as before.
pub publish-Published :
    (euid : ℕ) (a : PublishAnswers) (old : Option Endpoint) (fs : Files) (path : List ℕ)
    (e : Endpoint)
    → HasSizes e
    → Published a.unlinks old fs e (publish euid a old fs path e)
unfolding publish
publish-Published euid a (some o) fs path e sizes = record {
  done = λ h. cc;
  readable = λ h. cc;
  undone = λ _ _. (refl, refl, λ _ h. h);
  unfinished = λ h. cc;
}
publish-Published euid a none fs path e sizes =
    validated-Published a.unlinks fs e (decode_endpoint (encode_endpoint e))
      (named (secure_random a.random_opens a.random_reads 16) fs
        (place_record euid a fs path (encode_endpoint e)))
      refl
      (λ h.
        decode_endpoint-encode_endpoint e sizes
        ∙ checked-whole e (
            ap (λ (d : Option Endpoint × Option Error). d.1)
              (sym (decode_endpoint-encode_endpoint e sizes))
            ∙ h))
      (named-Placed a.unlinks fs (encode_endpoint e)
        (secure_random a.random_opens a.random_reads 16)
        (place_record euid a fs path (encode_endpoint e))
        (place_in-Placed euid a fs (encode_endpoint e) (open_dir euid a.directory path true)))

length-encode_endpoint : (e : Endpoint) → HasSizes e → length (encode_endpoint e) ≡ 38
unfolding encode_endpoint
length-encode_endpoint e (hp, ht) = omega (arith, ht)

-- The files behind a record that is published.
abbrev holding : Endpoint → Files
holding e = record { endpoint = some (encode_endpoint e); temporary = none }

read_back :
    (e : Endpoint)
    → HasSizes e
    → read_record (some (encode_endpoint e)) true ≡ some (encode_endpoint e)
read_back e sizes =
    ap some (take_all 39 (encode_endpoint e) (omega (arith, length-encode_endpoint e sizes)))

is_record_self :
    (e : Endpoint) → HasSizes e → is_record (some (encode_endpoint e)) (encode_endpoint e) ≡ true
is_record_self e sizes = rw (length-encode_endpoint e sizes) (same_id_self (encode_endpoint e))

read_endpoint-holding :
    (euid : ℕ) (b : DirectoryAnswers) (st : FileStat) (path : List ℕ) (e : Endpoint)
    → HasSizes e
    → open_dir euid b path false ≡ none
    → check euid st false ≡ true
    → read_endpoint euid b true st true (holding e) path ≡ decode_endpoint (encode_endpoint e)
unfolding read_endpoint read_in
read_endpoint-holding euid b st path e sizes opens private =
    rw (opens, private) (ap decoded (read_back e sizes))

close-holding :
    (euid : ℕ) (st : FileStat) (e : Endpoint)
    → HasSizes e
    → check euid st false ≡ true
    → (close euid true st true true (some e) (holding e)).1.endpoint ≡ none
unfolding close
close-holding euid st e sizes private =
    let own : is_record (read_record (some (encode_endpoint e)) true) (encode_endpoint e) ≡ true =
      ap (λ o. is_record o (encode_endpoint e)) (read_back e sizes) ∙ is_record_self e sizes in
    ground (arith, private, own)

-- What an owner has published, an endpoint of a 16-bit port and a 32-byte token, a reader that may
-- open the directory and the record reads back. Behind the owner's closing, where it may open and
-- check the record and its unlinkat() succeeds, no record is there.
pub read_endpoint-publish :
    (euid : ℕ) (a : PublishAnswers) (b : DirectoryAnswers) (st : FileStat)
    (old owner : Option Endpoint) (fs fs' : Files) (path other : List ℕ) (e : Endpoint)
    → HasSizes e
    → publish euid a old fs path e ≡ (owner, fs', published)
    → open_dir euid b other false ≡ none
    → check euid st false ≡ true
    → (read_endpoint euid b true st true fs' other ≡ (some e, none))
      × ((close euid true st true true owner fs').1.endpoint ≡ none)
read_endpoint-publish euid a b st old owner fs fs' path other e sizes h opens private =
    let p = subst (Published a.unlinks old fs e) h (publish-Published euid a old fs path e sizes) in
    let (mine, files) = p.done refl in
    (
      ap (λ f. read_endpoint euid b true st true f other) files
          ∙ read_endpoint-holding euid b st other e sizes opens private
          ∙ p.readable refl,
      ap₂ (λ o f. (close euid true st true true o f).1.endpoint) mine files
          ∙ close-holding euid st e sizes private,
    )

length-take_least : (n : ℕ) (xs : List ℕ) → length (take n xs) < n → length xs ≤ n
length-take_least zero xs h = elim h [ ]
length-take_least (suc n) [] h = omega arith
length-take_least (suc n) (x ∷ xs) h = omega (arith, length-take_least n xs (omega (arith, h)))

is_record-own :
    (o : Option (List ℕ)) (reads : Bool) (expected : List ℕ)
    → is_record (read_record o reads) expected ≡ true
    → o ≡ some expected
is_record-own none reads expected h = cc
is_record-own (some bytes) false expected h = cc
is_record-own (some bytes) true expected h =
    let (size, same) =
      &&_true (length (take 39 bytes) == 38) (same_id (take 39 bytes) expected) h in
    ap some (
      sym (take_all 39 bytes (length-take_least 39 bytes (ground (arith, size))))
      ∙ same_id-eq (take 39 bytes) expected same)

-- Closing changes no record but the owner's own: where it changes the record at all, that was the
-- encoding of the owner's endpoint, in a private file.
pub close_own :
    (euid : ℕ) (opens reads unlinks : Bool) (st : FileStat) (e : Endpoint) (fs : Files)
    → (close euid opens st reads unlinks (some e) fs).1.endpoint ≢ fs.endpoint
    → (fs.endpoint ≡ some (encode_endpoint e)) × (check euid st false ≡ true)
unfolding close
close_own euid opens reads unlinks st e fs h =
    elim (Bool-cases (
      opens
      && check euid st false
      && is_record (read_record fs.endpoint reads) (encode_endpoint e))) [
        | inl own ↦ (
          is_record-own fs.endpoint reads (encode_endpoint e) (ground (arith, own)),
          ground (arith, own),
        )
        | inr other ↦ absurd (h (rw other refl))
      ]
