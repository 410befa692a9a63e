-- ===== src/Proto/Frame/Reads.antt =====
-- What `ReadFrameWithAdmission` accepts, and how much it takes from the reader.
use persea_terminal.Base.{
  ℕ, ◌^◌, ◌≤◌, ◌<◌, ◌≡◌, refl, sym, ap, ◌∙◌, inl, inr, true, false, none, some, List, [], ◌∷◌, ◌++◌,
  arith, ltb, leb, Bool-cases, Option-cases, length, take, drop, length-append, length-take,
  take-append, drop-append, take-append-drop, ap₂, get_or,
}
use persea_terminal.Proto.Frame.{
  Frame, limit_for, be_uint32, put_uint32, ReadError, Failure, short_read, unknown_type, too_long,
  not_admitted, ok, err, read_full, Admission, admission, read_payload, read_checked,
  read_frame_with_admission,
}

-- The limit of every type fits the length field.
pub limit_for-lt : (t : ℕ) → (limit_for t).0 < 2 ^ 32
unfolding limit_for
limit_for-lt t = ground arith

pub be_uint32-put_uint32 : (n : ℕ) → n < 2 ^ 32 → be_uint32 (put_uint32 n) ≡ n
unfolding be_uint32 put_uint32
be_uint32-put_uint32 n h = omega arith

pub put_uint32-be_uint32 :
    (a b c d : ℕ)
    → a < 256
    → b < 256
    → c < 256
    → d < 256
    → put_uint32 (be_uint32 (a ∷ b ∷ c ∷ d ∷ [])) ≡ a ∷ b ∷ c ∷ d ∷ []
unfolding be_uint32 put_uint32
put_uint32-be_uint32 a b c d ha hb hc hd =
    ap₂ ◌∷◌ (omega arith)
      (ap₂ ◌∷◌ (omega arith) (ap₂ ◌∷◌ (omega arith) (ap₂ ◌∷◌ (omega arith) refl)))

pub read_full-append :
    (failure : Failure) (p rest : List ℕ) → read_full failure (length p) (p ++ rest) ≡ (ok p, rest)
unfolding read_full
read_full-append failure p rest =
    ground (arith, length-append p rest, take-append p rest, drop-append p rest)

-- What `io.ReadFull` gave: the bytes asked for and the rest, or the end of the reader.
pub data FullRead (failure : Failure) (n : ℕ) (s : List ℕ) : Type 0 where
  filled :
      (p rest : List ℕ)
      → s ≡ p ++ rest
      → length p ≡ n
      → read_full failure n s ≡ (ok p, rest)
      → FullRead failure n s
  ended :
      length s < n → read_full failure n s ≡ (err (short_read failure s), []) → FullRead failure n s

pub read_full_lem : (failure : Failure) (n : ℕ) (s : List ℕ) → FullRead failure n s
unfolding read_full
read_full_lem failure n s = elim (Bool-cases (leb n (length s))) [
  | inl enough ↦
      filled (take n s) (drop n s) (sym (take-append-drop n s)) (ground (arith, length-take n s))
        (rw (enough, read_full))
  | inr short ↦ ended (ground arith) (rw (short, read_full))
]

-- What a frame that was read says of the bytes taken: a known type, a length within its limit that
-- was admitted, and exactly the header and the payload.
pub record FrameRead (admit : Admission) (s : List ℕ) (f : Frame) (left : List ℕ) : Type 0 where
  pub known : (limit_for f.frame_type).1 ≡ true
  pub within : length f.payload ≤ (limit_for f.frame_type).0
  pub admitted : admission admit f.frame_type (length f.payload) ≡ none
  pub field : List ℕ
  pub field_size : length field ≡ 4
  pub field_value : be_uint32 field ≡ length f.payload
  pub taken : s ≡ (f.frame_type ∷ field) ++ (f.payload ++ left)

read_payload-ok :
    (failure : Failure) (t n : ℕ) (s : List ℕ) (f : Frame) (left : List ℕ)
    → read_payload failure t n s ≡ (ok f, left)
    → (f.frame_type ≡ t) × (length f.payload ≡ n) × (s ≡ f.payload ++ left)
unfolding read_payload
read_payload-ok failure t n s f left h = elim (read_full_lem failure n s) [
  | filled p rest split size e ↦ ground (arith, e)
  | ended short e ↦ ground (arith, e)
]

read_checked-ok :
    (failure : Failure) (admit : Admission) (t : ℕ) (field s : List ℕ) (f : Frame) (left : List ℕ)
    → read_checked failure admit (t ∷ field) s ≡ (ok f, left)
    → (f.frame_type ≡ t)
      × ((limit_for t).1 ≡ true)
      × (be_uint32 field ≤ (limit_for t).0)
      × (admission admit t (be_uint32 field) ≡ none)
      × (length f.payload ≡ be_uint32 field)
      × (s ≡ f.payload ++ left)
unfolding read_checked
read_checked-ok failure admit t field s f left h =
    ground (arith, read_payload-ok failure t (be_uint32 field) s f left)

with_header :
    (failure : Failure) (admit : Admission) (p rest s : List ℕ) (f : Frame) (left : List ℕ)
    → length p ≡ 5
    → s ≡ p ++ rest
    → read_checked failure admit p rest ≡ (ok f, left)
    → FrameRead admit s f left
with_header failure admit [] rest s f left size split h = absurd (omega arith)
with_header failure admit (t ∷ field) rest s f left size split h =
    let (kind, known, within, admitted, count, body) =
      read_checked-ok failure admit t field rest f left h in
    record {
      known = rw kind known;
      within = rw (kind, count) within;
      admitted = rw (kind, count) admitted;
      field = field;
      field_size = omega arith;
      field_value = sym count;
      taken = rw kind (split ∙ ap (λ r. t ∷ (field ++ r)) body);
    }

-- A frame that is read has a known type, a payload within the limit of its type that was admitted,
-- and it took exactly its header and its payload from the reader.
pub read_frame-FrameRead :
    (failure : Failure) (admit : Admission) (s : List ℕ) (f : Frame) (left : List ℕ)
    → read_frame_with_admission failure admit s ≡ (ok f, left)
    → FrameRead admit s f left
unfolding read_frame_with_admission
read_frame-FrameRead failure admit s f left h = elim (read_full_lem failure 5 s) [
  | filled p rest split size e ↦
      with_header failure admit p rest s f left size split (ground (arith, e))
  | ended short e ↦ ground (arith, e)
]

-- Why a header is turned down before anything of the body is read.
pub data Refuses (admit : Admission) (header : List ℕ) : ReadError → Type 0 where
  unknown : (limit_for (get_or header 0 0)).1 ≡ false → Refuses admit header unknown_type
  over :
      (limit_for (get_or header 0 0)).0 < be_uint32 (drop 1 header) → Refuses admit header too_long
  unfunded :
      (e : ℕ)
      → admission admit (get_or header 0 0) (be_uint32 (drop 1 header)) ≡ some e
      → Refuses admit header (not_admitted e)

-- How reading a frame fails: the reader delivers less than a header, or less than the body that an
-- admitted header announces, and what it delivered was taken; or the header is turned down, and then
-- nothing after the header was taken.
pub data ReadFailure (failure : Failure) (admit : Admission) (s : List ℕ) (e : ReadError)
    (left : List ℕ) : Type 0 where
  header_cut :
      length s < 5 → e ≡ short_read failure s → left ≡ [] → ReadFailure failure admit s e left
  body_cut :
      (header rest : List ℕ)
      → length header ≡ 5
      → s ≡ header ++ rest
      → (limit_for (get_or header 0 0)).1 ≡ true
      → be_uint32 (drop 1 header) ≤ (limit_for (get_or header 0 0)).0
      → admission admit (get_or header 0 0) (be_uint32 (drop 1 header)) ≡ none
      → length rest < be_uint32 (drop 1 header)
      → e ≡ short_read failure rest
      → left ≡ []
      → ReadFailure failure admit s e left
  refused :
      (header : List ℕ)
      → length header ≡ 5
      → s ≡ header ++ left
      → Refuses admit header e
      → ReadFailure failure admit s e left

read_payload-err :
    (failure : Failure) (t n : ℕ) (s : List ℕ) (e : ReadError) (left : List ℕ)
    → read_payload failure t n s ≡ (err e, left)
    → (length s < n) × (e ≡ short_read failure s) × (left ≡ [])
unfolding read_payload
read_payload-err failure t n s e left h = elim (read_full_lem failure n s) [
  | filled p rest split size r ↦ ground (arith, r)
  | ended short r ↦ ground (arith, r, short)
]

checked-err :
    (failure : Failure) (admit : Admission) (header rest s : List ℕ) (e : ReadError) (left : List ℕ)
    → length header ≡ 5
    → s ≡ header ++ rest
    → read_checked failure admit header rest ≡ (err e, left)
    → ReadFailure failure admit s e left
unfolding read_checked
checked-err failure admit header rest s e left size split h =
    elim (Bool-cases (limit_for (get_or header 0 0)).1) [
      | inr no_type ↦
          let why : e ≡ unknown_type = ground (arith, no_type) in
          refused header size (ground (arith, no_type)) (rw why (unknown no_type))
      | inl known ↦
          elim (Bool-cases (ltb (limit_for (get_or header 0 0)).0 (be_uint32 (drop 1 header)))) [
            | inl long ↦
                let why : e ≡ too_long = ground (arith, known, long) in
                refused header size (ground (arith, known, long))
                  (rw why (over (ground (arith, long))))
            | inr fits ↦
                elim (Option-cases
                  (admission admit (get_or header 0 0) (be_uint32 (drop 1 header)))) [
                    | inl funded ↦
                        let (short, kind, gone) =
                          read_payload-err failure (get_or header 0 0) (be_uint32 (drop 1 header))
                            rest e left (ground (arith, known, fits, funded)) in
                        body_cut header rest size split known (ground (arith, fits)) funded short
                          kind gone
                    | inr (x, denied) ↦
                        let why : e ≡ not_admitted x = ground (arith, known, fits, denied) in
                        refused header size (ground (arith, known, fits, denied))
                          (rw why (unfunded x denied))
                  ]
          ]
    ]

-- When reading a frame fails, either the reader ends or fails, with or without an error of its own,
-- before the header, or before the body that a known, fitting and admitted header announces, is
-- complete, the error says which, and all it delivered was taken; or the type is unknown, the length
-- over the limit of the type or the admission denied, and then exactly the five bytes of the header
-- were taken.
pub read_frame-ReadFailure :
    (failure : Failure) (admit : Admission) (s : List ℕ) (e : ReadError) (left : List ℕ)
    → read_frame_with_admission failure admit s ≡ (err e, left)
    → ReadFailure failure admit s e left
unfolding read_frame_with_admission
read_frame-ReadFailure failure admit s e left h = elim (read_full_lem failure 5 s) [
  | filled p rest split size r ↦
      checked-err failure admit p rest s e left size split (ground (arith, r))
  | ended short r ↦ header_cut short (ground (arith, r)) (ground (arith, r))
]
