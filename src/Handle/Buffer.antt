-- ===== src/Handle/Buffer.antt =====
-- `Read`, `Write` and `truncate` of pkg/objectfs/handle.go, byte by byte.
use roommate_csi.Prelude.{
  ℕ, zero, suc, ◌+◌, ◌-◌, ◌≤◌, ◌<◌, ◌≡◌, ◌∙◌, refl, ap, inl, inr, true, false, Option, none, some,
  or_else, [], ◌∷◌, ◌++◌, length, get_elem?, take, drop, replicate, length-take, length-drop,
  length-replicate, get_elem?-take, get_elem?-drop, get_elem?-append_left, get_elem?-append_right,
  get_elem?_beyond, get_elem?_within, get_elem?-take_beyond, get_elem?-replicate, list_ext,
  Bool-cases, ltb, leb, ◌==◌, ◌||◌, not, arith, if◌then◌else◌,
}
use roommate_csi.Prelude.Bytes.{Bytes}
use roommate_csi.Prelude.Int.{pos}
use roommate_csi.State.{Handle}
use roommate_csi.Handle.{copy, copy_at, read, write, truncate}

pub length-copy : (dst src : Bytes) → length (copy dst src) ≡ length dst
unfolding copy
length-copy [] src = refl
length-copy (d ∷ dst) [] = refl
length-copy (d ∷ dst) (b ∷ src) = ap suc (length-copy dst src)

get_elem?-copy :
    (dst src : Bytes) (i : ℕ)
    → i < length dst
    → get_elem? (copy dst src) i ≡ or_else (get_elem? src i) (get_elem? dst i)
unfolding copy
get_elem?-copy [] src i h = elim h [ ]
get_elem?-copy (d ∷ dst) [] i h = refl
get_elem?-copy (d ∷ dst) (b ∷ src) zero h = refl
get_elem?-copy (d ∷ dst) (b ∷ src) (suc i) h = get_elem?-copy dst src i (omega arith)

-- Zeros, with `src` copied over them.
pub get_elem?-padded :
    (n : ℕ) (src : Bytes) (i : ℕ)
    → i < n
    → get_elem? (copy (replicate n 0) src) i ≡ or_else (get_elem? src i) (some 0)
get_elem?-padded n src i h =
    get_elem?-copy (replicate n 0) src i (omega (arith, length-replicate {0} n (zero)))
    ∙ ap (or_else (get_elem? src i)) (get_elem?-replicate n i 0 h)

get_elem?-window :
    (m off j : ℕ) (buf : Bytes)
    → get_elem? (take m (drop off buf)) j ≡ (if ltb j m then get_elem? buf (off + j) else none)
get_elem?-window m off j buf = ground (
  arith,
  get_elem?-take m j (drop off buf),
  get_elem?-take_beyond m j (drop off buf),
  get_elem?-drop off j buf,
)

-- The byte of a read at index `j` is that of the buffer at the offset plus `j`, for as many bytes as
-- were asked for and the buffer has.
pub get_elem?-read :
    (v : Handle) (n off j : ℕ)
    → get_elem? (read v n (pos off)) j ≡ (if ltb j n then get_elem? v.buf (off + j) else none)
unfolding read
get_elem?-read v n off j = ground (
  arith,
  get_elem?-window (length v.buf - off) off j v.buf,
  get_elem?-window (off + n - off) off j v.buf,
  get_elem?_beyond v.buf (off + j),
)

leb-false : (a b : ℕ) → leb a b ≡ false → b < a
leb-false a b h = ground arith

get_elem?-copied_tail :
    (off : ℕ) (dst src : Bytes) (k : ℕ)
    → off + length src ≤ length dst
    → get_elem? (copy (drop off dst) src) k ≡ or_else (get_elem? src k) (get_elem? dst (off + k))
get_elem?-copied_tail off dst src k fits = ground (
  arith,
  get_elem?-copy (drop off dst) src k,
  get_elem?-drop off k dst,
  get_elem?_beyond (copy (drop off dst) src) k,
  get_elem?_beyond src k,
  get_elem?_beyond dst (off + k),
  length-copy (drop off dst) src,
  length-drop off dst,
)

get_elem?-copied :
    (off : ℕ) (dst src : Bytes) (i : ℕ)
    → off + length src ≤ length dst
    → off ≤ i
    → get_elem? (take off dst ++ copy (drop off dst) src) i
      ≡ or_else (get_elem? src (i - off)) (get_elem? dst i)
get_elem?-copied off dst src i fits past =
    get_elem?-append_right (take off dst) (copy (drop off dst) src) i
      (omega (arith, length-take off dst))
    ∙ ap (get_elem? (copy (drop off dst) src)) (omega (arith, length-take off dst))
    ∙ get_elem?-copied_tail off dst src (i - off) fits
    ∙ ap (λ k. or_else (get_elem? src (i - off)) (get_elem? dst k)) (omega arith)

get_elem?-copy_at :
    (off : ℕ) (dst src : Bytes) (i : ℕ)
    → off + length src ≤ length dst
    → get_elem? (copy_at off dst src) i
      ≡ (if leb off i then or_else (get_elem? src (i - off)) (get_elem? dst i) else get_elem? dst i)
unfolding copy_at
get_elem?-copy_at off dst src i fits = elim (Bool-cases (leb off i)) [
  | inl past ↦ rw past (get_elem?-copied off dst src i fits (ground arith))
  | inr front ↦ rw front (
      get_elem?-append_left (take off dst) (copy (drop off dst) src) i
        (omega (arith, length-take off dst, leb-false off i front))
      ∙ get_elem?-take off i dst (leb-false off i front))
]

-- Bytes written over an old content that was padded with zeros up to `n`.
get_elem?-overlaid :
    (n off : ℕ) (bytes old : Bytes) (i : ℕ)
    → off + length bytes ≤ n
    → length old ≤ n
    → get_elem? (copy_at off (copy (replicate n 0) old) bytes) i ≡ (
        if ltb i n
        then or_else
            (if leb off i then get_elem? bytes (i - off) else none)
            (or_else (get_elem? old i) (some 0))
        else none)
get_elem?-overlaid n off bytes old i fits holds = ground (
  arith,
  get_elem?-copy_at off (copy (replicate n 0) old) bytes i,
  get_elem?-padded n old i,
  get_elem?_beyond (copy (replicate n 0) old) i,
  get_elem?_beyond bytes (i - off),
  length-copy (replicate n 0) old,
  length-replicate n (zero),
)

-- What a write leaves at index `i`: the byte written, or else the byte that was there, or else a zero
-- up to the end of the write.
abbrev pub written : ℕ → Bytes → Bytes → ℕ → Option ℕ
written off bytes old i =
    or_else (if leb off i then get_elem? bytes (i - off) else none)
      (or_else (get_elem? old i) (if ltb i (off + length bytes) then some 0 else none))

-- A write at an offset puts its bytes there, keeps every other byte, and fills a gap behind the old
-- end with zeros; the handle is dirty then.
pub get_elem?-write :
    (v : Handle) (bytes : Bytes) (off i : ℕ)
    → (get_elem? (write v bytes (pos off)).0.buf i ≡ written off bytes v.buf i)
      × ((write v bytes (pos off)).0.dirty ≡ true)
unfolding write
get_elem?-write v bytes off i = (
  ground (
    arith,
    get_elem?-overlaid (off + length bytes) off bytes v.buf i,
    get_elem?-overlaid (length v.buf) off bytes v.buf i,
    get_elem?_beyond v.buf i,
    get_elem?_within v.buf i,
    get_elem?_beyond bytes (i - off),
  ),
  refl,
)

sub_offset : (off j : ℕ) → off + j - off ≡ j
sub_offset off j = omega arith

-- What was just written is read back.
pub read-write :
    (v : Handle) (bytes : Bytes) (off : ℕ)
    → read (write v bytes (pos off)).0 (length bytes) (pos off) ≡ bytes
read-write v bytes off = list_ext _ _ λ j. ground (
  arith,
  get_elem?-read (write v bytes (pos off)).0 (length bytes) off j,
  (get_elem?-write v bytes off (off + j)).0,
  ap (get_elem? bytes) (sub_offset off j),
  get_elem?_beyond bytes j,
  get_elem?_within bytes j,
)

-- A truncation keeps the bytes in front of the new size and fills up with zeros behind the old one.
-- The handle becomes dirty exactly if the size changes.
pub get_elem?-truncate :
    (v : Handle) (size i : ℕ)
    → (get_elem? (truncate v size).buf i
        ≡ (if ltb i size then or_else (get_elem? v.buf i) (some 0) else none))
      × (length (truncate v size).buf ≡ size)
      × ((truncate v size).dirty ≡ (v.dirty || not (size == length v.buf)))
unfolding truncate
get_elem?-truncate v size i = (
  ground (
    arith,
    get_elem?-padded size v.buf i,
    get_elem?_beyond (copy (replicate size 0) v.buf) i,
    length-copy (replicate size 0) v.buf,
    length-replicate size (zero),
    get_elem?_beyond v.buf i,
    get_elem?_within v.buf i,
  ),
  ground (arith, length-copy (replicate size 0) v.buf, length-replicate size (zero)),
  ground arith,
)
