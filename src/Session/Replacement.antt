-- ===== src/Session/Replacement.antt =====
-- flSessionValidateReplacement of src/framelink_session.cpp: the order of the configurations of a
-- session.
use framelink.Base.{ℕ, ◌≡◌, refl, ◌<◌, ◌∙◌, true, some, List, [], ◌∷◌, arith}
use framelink.Session.{ok, Config, validate, same_id, validate_replacement}

pub same_id-eq : (xs ys : List ℕ) → same_id xs ys ≡ true → xs ≡ ys
unfolding same_id
same_id-eq [] [] h = refl
same_id-eq [] (y ∷ ys) h = cc
same_id-eq (x ∷ xs) [] h = cc
same_id-eq (x ∷ xs) (y ∷ ys) h = ground (arith, same_id-eq xs ys)

pub same_id_self : (xs : List ℕ) → same_id xs xs ≡ true
unfolding same_id
same_id_self [] = refl
same_id_self (x ∷ xs) = ground (arith, same_id_self xs)

same_id_trans :
    (xs ys zs : List ℕ) → same_id xs ys ≡ true → same_id ys zs ≡ true → same_id xs zs ≡ true
unfolding same_id
same_id_trans [] [] zs h k = k
same_id_trans [] (y ∷ ys) zs h k = cc
same_id_trans (x ∷ xs) [] zs h k = cc
same_id_trans (x ∷ xs) (y ∷ ys) [] h k = cc
same_id_trans (x ∷ xs) (y ∷ ys) (z ∷ zs) h k = ground (arith, same_id_trans xs ys zs)

-- What an accepted replacement says of the two configurations.
pub record Replaces (c n : Config) : Type 0 where
  pub current : validate (some c) ≡ ok
  pub next : validate (some n) ≡ ok
  pub version : c.version ≡ n.version
  pub session : same_id c.session_id n.session_id ≡ true
  pub video : c.video_track ≡ n.video_track
  pub audio : c.audio_track ≡ n.audio_track
  pub generation : c.generation < n.generation

pub replacement_parts : (c n : Config) → validate_replacement (some c) (some n) ≡ ok → Replaces c n
unfolding validate_replacement
replacement_parts c n h = record {
  current = ground (arith, h);
  next = ground (arith, h);
  version = ground (arith, h);
  session = ground (arith, h);
  video = ground (arith, h);
  audio = ground (arith, h);
  generation = ground (arith, h);
}

replacement_accepted : (c n : Config) → Replaces c n → validate_replacement (some c) (some n) ≡ ok
unfolding validate_replacement
replacement_accepted c n r =
    ground (arith, r.current, r.next, r.version, r.session, r.video, r.audio, r.generation)

-- Replacements order the configurations of a session: two accepted replacements in a row are one
-- accepted replacement, and the later configuration is then not replaced by the first one.
pub validate_replacement_trans :
    (a b c : Config)
    → validate_replacement (some a) (some b) ≡ ok
    → validate_replacement (some b) (some c) ≡ ok
    → (validate_replacement (some a) (some c) ≡ ok)
      × ¬ (validate_replacement (some c) (some a) ≡ ok)
validate_replacement_trans a b c h k =
    let r = replacement_parts a b h in
    let s = replacement_parts b c k in
    (
      replacement_accepted a c (record {
        current = r.current;
        next = s.next;
        version = r.version ∙ s.version;
        session = same_id_trans a.session_id b.session_id c.session_id r.session s.session;
        video = r.video ∙ s.video;
        audio = r.audio ∙ s.audio;
        generation = omega (arith, r.generation, s.generation);
      }),
      λ back. omega (arith, r.generation, s.generation, (replacement_parts c a back).generation),
    )
