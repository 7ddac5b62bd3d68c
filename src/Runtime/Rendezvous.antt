-- ===== src/Runtime/Rendezvous.antt =====
-- The rendezvous of src/runtime/av_rendezvous.cpp: the record of an endpoint, and publishing, closing
-- and reading it. A file is its bytes, and a loop over a system call runs over the answers that the
-- call gives; where they run out, the loop still waits.
use framelink.Base.{
  ℕ, zero, suc, ◌+◌, ◌*◌, ◌/◌, ◌%◌, Bool, true, false, not, ◌&&◌, ◌||◌, Option, none, some, List,
  [], ◌∷◌, ◌++◌, ltb, ◌==◌, truthy, if◌then◌else◌, length, take, drop, all, any, bit_and, bit_or,
  get_or,
}
use framelink.Session.{same_id}

-- Endpoint
pub record Endpoint : Type 0 where
  pub port : ℕ
  pub token : List ℕ

-- The texts that an error is set to.
pub data Error : Type 0 where
  invalid_record invalid_endpoint no_random random_read_failed not_private : Error
  invalid_path cannot_create cannot_open already_published lock_unavailable owner_active : Error
  cannot_create_record cannot_write_record cannot_publish record_unavailable cannot_read : Error

-- wireSize
abbrev pub record_size : ℕ
record_size = 38

-- "FAR1"
abbrev pub record_magic : List ℕ
record_magic = 70 ∷ 65 ∷ 82 ∷ 49 ∷ []

-- encode()
unfoldable pub encode_endpoint : Endpoint → List ℕ
encode_endpoint e = record_magic ++ (e.port % 256) ∷ (e.port / 256) ∷ e.token

-- The end of decode().
unfoldable pub checked : Endpoint → Option Endpoint × Option Error
checked e =
    if e.port == 0 || all (λ c. c == 0) e.token
    then (none, some invalid_endpoint)
    else (some e, none)

-- decode()
unfoldable pub decode_endpoint : List ℕ → Option Endpoint × Option Error
unfolding checked
decode_endpoint b =
    if not (length b == record_size) || not (same_id (take 4 b) record_magic)
    then (none, some invalid_record)
    else checked
        (record { port = bit_or (get_or b 4 0) (get_or b 5 0 * 256); token = take 32 (drop 6 b) })

-- What read() or write() answers: EINTR, another error, or a number of bytes.
pub data IoAnswer : Type 0 where
  interrupted failed : IoAnswer
  moved : ℕ → IoAnswer

-- The loops of secureRandom() and of publish() from `count` of n bytes on: whether they end well, or
-- `none` while they still wait.
unfoldable pub transfer : List IoAnswer → ℕ → ℕ → Option Bool
transfer [] n count = if ltb count n then none else some true
transfer (interrupted ∷ rs) n count = if ltb count n then transfer rs n count else some true
transfer (failed ∷ rs) n count = if ltb count n then some false else some true
transfer (moved zero ∷ rs) n count = if ltb count n then some false else some true
transfer (moved (suc k) ∷ rs) n count =
    if ltb count n then transfer rs n (count + suc k) else some true

-- secureRandom(), from whether the device opens and the answers of its reads.
unfoldable pub secure_random : Bool → List IoAnswer → ℕ → Option (Option Error)
secure_random opens rs n = if not opens then some (some no_random) else elim (transfer rs n 0) [
  | none ↦ none
  | some done ↦ some (if done then none else some random_read_failed)
]

-- What fstat() says of a descriptor, with whether it succeeds; `uid` is st_uid.
pub record FileStat : Type 0 where
  pub known : Bool
  pub uid : ℕ
  pub mode : ℕ
  pub directory : Bool
  pub regular : Bool
  pub links : ℕ

-- check(); 63 is 0077.
unfoldable pub check : ℕ → FileStat → Bool → Bool
check euid st directory = not (
    not st.known
    || not (st.uid == euid)
    || truthy (bit_and st.mode 63)
    || (if directory then not st.directory else not st.regular || not (st.links == 1)))

-- Without the slashes at the end of a path behind its first character; 47 is a slash.
unfoldable pub strip_slashes : List ℕ → List ℕ
strip_slashes [] = []
strip_slashes (c ∷ cs) =
    let rest = strip_slashes cs in if c == 47 && length rest == 0 then [] else c ∷ rest

unfoldable pub normalized : List ℕ → List ℕ
unfolding strip_slashes
normalized [] = []
normalized (c ∷ cs) = c ∷ strip_slashes cs

-- mkdir(): success, EEXIST, or another error.
pub data Mkdir : Type 0 where
  created exists denied : Mkdir

abbrev pub fails : Mkdir → Bool
fails denied = true
fails _ = false

-- The answers for a directory: mkdir(), and what open() gives for a path.
pub record DirectoryAnswers : Type 0 where
  pub mkdir : List ℕ → Mkdir
  pub open_dir : List ℕ → Option FileStat

-- What is refused of an opened directory.
abbrev pub opened_dir : ℕ → Option FileStat → Option Error
opened_dir euid none = some cannot_open
opened_dir euid (some st) = if check euid st true then none else some not_private

-- openDir(), with its error.
unfoldable pub open_dir : ℕ → DirectoryAnswers → List ℕ → Bool → Option Error
unfolding check
open_dir euid a path create =
    if length path == 0 || any (λ c. c == 0) path
    then some invalid_path
    else if create && fails (a.mkdir path)
    then some cannot_create
    else opened_dir euid (a.open_dir (normalized path))

-- The files of a rendezvous directory: the record, and the one that is written beside it.
pub record Files : Type 0 where
  pub endpoint : Option (List ℕ)
  pub temporary : Option (List ℕ)

-- The answers of the calls of publish() behind openDir(): the random bytes of the temporary name, the
-- lock and its check, flock(), the new file, its writes, fsync(), renameat() and unlinkat(), whose
-- answer the source ignores; `left` is what a file holds whose writes have not ended well.
pub record PublishAnswers : Type 0 where
  pub directory : DirectoryAnswers
  pub random_opens : Bool
  pub random_reads : List IoAnswer
  pub lock : Option FileStat
  pub locks : Bool
  pub creates : Bool
  pub writes : List IoAnswer
  pub syncs : Bool
  pub renames : Bool
  pub unlinks : Bool
  pub left : List ℕ

-- How publish() ends; `waiting` is a loop whose calls have not all answered.
pub data Ending : Type 0 where
  published : Ending
  refused : Error → Ending
  waiting : Ending

abbrev pub bad_lock : ℕ → Option FileStat → Bool
bad_lock euid none = true
bad_lock euid (some st) = not (check euid st false)

-- What unlinkat() leaves of a file.
abbrev pub unlinked : Bool → Option (List ℕ) → Option (List ℕ)
unlinked unlinks file = if unlinks then none else file

-- The files when the record is written, by how the writes end.
unfoldable pub finish_record : PublishAnswers → Files → List ℕ → Option Bool → Files × Ending
finish_record a fs bytes none = (record fs { temporary = some a.left }, waiting)
finish_record a fs bytes (some false) =
    (record fs { temporary = unlinked a.unlinks (some a.left) }, refused cannot_write_record)
finish_record a fs bytes (some true) =
    if not a.syncs || not a.renames
    then (record fs { temporary = unlinked a.unlinks (some bytes) }, refused cannot_publish)
    else (record { endpoint = some bytes; temporary = none }, published)

-- publish() behind openDir(), from the error of that.
unfoldable pub place_in : ℕ → PublishAnswers → Files → List ℕ → Option Error → Files × Ending
unfolding finish_record
place_in euid a fs bytes (some error) = (fs, refused error)
place_in euid a fs bytes none =
    if bad_lock euid a.lock
    then (fs, refused lock_unavailable)
    else if not a.locks
    then (fs, refused owner_active)
    else if not a.creates
    then (fs, refused cannot_create_record)
    else finish_record a fs bytes (transfer a.writes (length bytes) 0)

-- publish() behind the temporary name.
unfoldable pub place_record : ℕ → PublishAnswers → Files → List ℕ → List ℕ → Files × Ending
unfolding place_in
place_record euid a fs path bytes = place_in euid a fs bytes (open_dir euid a.directory path true)

abbrev pub named : Option (Option Error) → Files → Files × Ending → Files × Ending
named none fs next = (fs, waiting)
named (some (some error)) fs next = (fs, refused error)
named (some none) fs next = next

abbrev pub validated : Option Endpoint × Option Error → Files → Files × Ending → Files × Ending
validated (e, some error) fs next = (fs, refused error)
validated (e, none) fs next = next

-- The owner's endpoint behind publish().
abbrev pub owned_by : Endpoint → Files × Ending → Option Endpoint × Files × Ending
owned_by e (fs, published) = (some e, fs, published)
owned_by e (fs, ending) = (none, fs, ending)

-- RendezvousOwner::publish(), on what the owner published before.
unfoldable pub publish :
    ℕ
    → PublishAnswers
    → Option Endpoint
    → Files
    → List ℕ
    → Endpoint
    → Option Endpoint × Files × Ending
unfolding place_record
publish euid a (some old) fs path e = (some old, fs, refused already_published)
publish euid a none fs path e = owned_by e (
    validated (decode_endpoint (encode_endpoint e)) fs (
      named (secure_random a.random_opens a.random_reads 16) fs
        (place_record euid a fs path (encode_endpoint e))))

-- What open() and fstat() make of the record, and the answers of its reads: EINTR some times, then
-- a failure or the bytes, of which at most 39 are read.
abbrev pub read_record : Option (List ℕ) → Bool → Option (List ℕ)
read_record none reads = none
read_record (some bytes) reads = if reads then some (take (record_size + 1) bytes) else none

abbrev pub is_record : Option (List ℕ) → List ℕ → Bool
is_record none expected = false
is_record (some b) expected = length b == record_size && same_id b expected

-- RendezvousOwner::close(), from whether the record opens, what fstat() says, whether it is read, and
-- whether unlinkat() succeeds, which the source does not ask.
unfoldable pub close :
    ℕ → Bool → FileStat → Bool → Bool → Option Endpoint → Files → Option Endpoint × Files
close euid opens st reads unlinks none fs = (none, fs)
close euid opens st reads unlinks (some e) fs =
    if opens && check euid st false && is_record (read_record fs.endpoint reads) (encode_endpoint e)
    then (none, record fs { endpoint = unlinked unlinks fs.endpoint })
    else (none, fs)

abbrev pub decoded : Option (List ℕ) → Option Endpoint × Option Error
decoded none = (none, some cannot_read)
decoded (some b) = decode_endpoint b

abbrev pub present {ℓ} : {A : Type ℓ} → Option A → Bool
present none = false
present (some a) = true

-- readEndpoint() behind openDir(), from the error of that.
unfoldable pub read_in :
    ℕ → Bool → FileStat → Bool → Files → Option Error → Option Endpoint × Option Error
read_in euid opens st reads fs (some error) = (none, some error)
read_in euid opens st reads fs none =
    if not opens || not (present fs.endpoint)
    then (none, some record_unavailable)
    else if not (check euid st false)
    then (none, some not_private)
    else decoded (read_record fs.endpoint reads)

-- readEndpoint()
unfoldable pub read_endpoint :
    ℕ → DirectoryAnswers → Bool → FileStat → Bool → Files → List ℕ → Option Endpoint × Option Error
unfolding read_in
read_endpoint euid a opens st reads fs path =
    read_in euid opens st reads fs (open_dir euid a path false)
