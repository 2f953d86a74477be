-- ===== src/Format/Records/Sound.antt =====
-- What the loop over a block's records returns is the whole block, whatever the rounds.
use glare9_provenance.Prelude.{
  ℕ, zero, suc, ◌+◌, ◌≤◌, ◌<◌, Bytes, IsByte, IsBytes, List, [], ◌∷◌, ◌++◌, leb, ◌==◌, ==_iff, ◌≡◌,
  refl, ap, sym, subst, append_assoc, Result-cases, length, take, drop, take-append-drop,
  length-drop, length-take-le, All-drop, ok, arith, leb→le, le→leb, invariant-eq-ok, >>=-eq-ok, All,
  some, Option-cases, inl, inr, ◌≢◌, err, Bool-cases, ◌∙◌,
}
use glare9_provenance.Prelude.Octets.{write_u32, read_u32}
use glare9_provenance.Format.Records.{
  frame_record, cut_record, read_record, read_records, read_framed_records, frame_records,
}

read_u32_sound :
    (input : Bytes) (n : ℕ) (rest : Bytes)
    → IsBytes input
    → read_u32 input ≡ some (n, rest)
    → (input ≡ write_u32 n ++ rest)
      × (n < 4294967296)
      × (length input ≡ 4 + length rest)
      × IsBytes rest
unfolding read_u32 write_u32
read_u32_sound [] n rest bytes h = cc
read_u32_sound (a ∷ []) n rest bytes h = cc
read_u32_sound (a ∷ b ∷ []) n rest bytes h = cc
read_u32_sound (a ∷ b ∷ c ∷ []) n rest bytes h = cc
read_u32_sound (a ∷ b ∷ c ∷ d ∷ others) n rest bytes h =
    let same : others ≡ rest = cc in
    (ground arith, ground arith, ground arith, subst IsBytes same bytes.1.1.1.1)

-- What one round makes of the length and of what follows it.
module _ (limit : ℕ) (input bytes rest : Bytes) where
  read_tail :
      (size : ℕ) (tail : Bytes)
      → cut_record limit size tail ≡ ok (bytes, rest)
      → (input ≡ write_u32 size ++ tail)
        × (size < 4294967296)
        × (length input ≡ 4 + length tail)
        × IsBytes tail
      → (input ≡ write_u32 (length bytes) ++ (bytes ++ rest))
        × (length bytes < 4294967296)
        × (length bytes ≤ limit)
        × (length rest < length input)
        × IsBytes rest
  unfolding cut_record
  read_tail size tail h (input_eq, small, longer, all) =
      let (within, after) = invariant-eq-ok (leb size limit) _ _ h in
      let (enough, whole) = invariant-eq-ok (leb size (length tail)) _ _ after in
      let bytes_eq : take size tail ≡ bytes = cc in
      let rest_eq : drop size tail ≡ rest = cc in
      let size_eq : length (take size tail) ≡ size = length-take-le size tail (leb→le _ _ enough) in
      rw (← bytes_eq, ← rest_eq, size_eq, take-append-drop size tail)
        (
          input_eq,
          small,
          leb→le _ _ within,
          omega (arith, length-drop size tail),
          All-drop IsByte size tail all,
        )

read_record_sound :
    (limit : ℕ) (input bytes rest : Bytes)
    → IsBytes input
    → read_record limit input ≡ ok (bytes, rest)
    → (input ≡ write_u32 (length bytes) ++ (bytes ++ rest))
      × (length bytes < 4294967296)
      × (length bytes ≤ limit)
      × (length rest < length input)
      × IsBytes rest
unfolding read_record
read_record_sound limit input bytes rest all h = elim (Option-cases (read_u32 input)) [
  | inl none_eq ↦ ground arith
  | inr ((size, tail), e) ↦
      read_tail limit input bytes rest size tail (rw (e, read_record) at h)
        (read_u32_sound input size tail all e)
]

frame_record-length :
    (bytes : Bytes)
    → length bytes < 4294967296
    → frame_record bytes ≡ ok (write_u32 (length bytes) ++ bytes)
unfolding frame_record
frame_record-length bytes h = rw (le→leb (length bytes) 0xffff_ffff (omega arith))

read_records_sound :
    (rounds limit : ℕ) (input : Bytes) (records : List Bytes)
    → IsBytes input
    → read_records rounds limit input ≡ ok records
    → (frame_records records ≡ ok input) × All (λ bytes. length bytes ≤ limit) records
unfolding read_records frame_records
read_records_sound rounds limit [] records all h =
    let none_left : [] ≡ records = cc in rw (← none_left) (refl, tt)
read_records_sound zero limit (b ∷ input) records all h = cc
read_records_sound (suc rounds) limit (b ∷ input) records all h =
    let ((bytes, rest), read_eq, after) = >>=-eq-ok (read_record limit (b ∷ input)) _ h in
    let (others, others_eq, whole) = >>=-eq-ok (read_records rounds limit rest) _ after in
    let (input_eq, small, within, shorter, all_rest) =
      read_record_sound limit (b ∷ input) bytes rest all read_eq in
    let (framed, fits) = read_records_sound rounds limit rest others all_rest others_eq in
    let same : bytes ∷ others ≡ records = cc in
    rw (← same, frame_record-length bytes small, framed)
      (
        rw (append_assoc (write_u32 (length bytes)) bytes rest) (ap ok (sym input_eq)),
        (within, fits),
      )

-- More rounds than there are bytes change nothing.
read_records-rounds :
    (rounds more limit : ℕ) (input : Bytes)
    → IsBytes input
    → length input ≤ rounds
    → length input ≤ more
    → read_records rounds limit input ≡ read_records more limit input
unfolding read_records
read_records-rounds rounds more limit [] all h k = refl
read_records-rounds zero more limit (b ∷ input) all h k = absurd (omega arith)
read_records-rounds (suc rounds) zero limit (b ∷ input) all h k = absurd (omega arith)
read_records-rounds (suc rounds) (suc more) limit (b ∷ input) all h k =
    elim (Result-cases (read_record limit (b ∷ input))) [
      | inr (code, e) ↦ rw e
      | inl ((bytes, rest), e) ↦
          let (_, _, _, shorter, all_rest) = read_record_sound limit (b ∷ input) bytes rest all e in
          rw (e, read_records-rounds rounds more limit rest all_rest (omega arith) (omega arith))
    ]

cut_record-ne-out_of_rounds :
    (limit size : ℕ) (tail : Bytes) → cut_record limit size tail ≢ err "OUT_OF_ROUNDS"
unfolding cut_record
cut_record-ne-out_of_rounds limit size tail h = elim (Bool-cases (leb size limit)) [
  | inr above ↦ (let e = rw above at h in cc)
  | inl within ↦ elim (Bool-cases (leb size (length tail))) [
    | inr short ↦ (let e = rw (within, short) at h in cc)
    | inl enough ↦ (let e = rw (within, enough) at h in cc)
  ]
]

read_record-ne-out_of_rounds :
    (limit : ℕ) (input : Bytes) → read_record limit input ≢ err "OUT_OF_ROUNDS"
unfolding read_record cut_record
read_record-ne-out_of_rounds limit input h = elim (Option-cases (read_u32 input)) [
  | inl none_eq ↦ (let e = rw (none_eq, read_record) at h in cc)
  | inr ((size, tail), some_eq) ↦
      (let e = rw (some_eq, read_record) at h in cut_record-ne-out_of_rounds limit size tail e)
]

read_records-ne-out_of_rounds :
    (rounds limit : ℕ) (input : Bytes)
    → IsBytes input
    → length input ≤ rounds
    → read_records rounds limit input ≢ err "OUT_OF_ROUNDS"
unfolding read_records
read_records-ne-out_of_rounds rounds limit [] all h e = cc
read_records-ne-out_of_rounds zero limit (b ∷ input) all h e = absurd (omega arith)
read_records-ne-out_of_rounds (suc rounds) limit (b ∷ input) all h e =
    elim (Result-cases (read_record limit (b ∷ input))) [
      | inr (code, e1) ↦
          let thrown = rw e1 at e in
          read_record-ne-out_of_rounds limit (b ∷ input)
            (e1 ∙ (let same : code ≡ "OUT_OF_ROUNDS" = cc in ap err same))
      | inl ((bytes, rest), e1) ↦
          let (_, _, _, shorter, all_rest) =
            read_record_sound limit (b ∷ input) bytes rest all e1 in
          elim (Result-cases (read_records rounds limit rest)) [
            | inl (others, e2) ↦ (let no = rw (e1, e2) at e in cc)
            | inr (code, e2) ↦
                read_records-ne-out_of_rounds rounds limit rest all_rest (omega arith)
                  (e2 ∙ (rw (e1, e2) at e))
          ]
    ]

-- As many rounds as a block has bytes are enough: the loop over its records never ends for want of
-- rounds, whatever the bytes, and with more rounds it returns or throws the same.
pub read_records-enough :
    (rounds more limit : ℕ) (input : Bytes)
    → IsBytes input
    → length input ≤ rounds
    → length input ≤ more
    → (read_records rounds limit input ≢ err "OUT_OF_ROUNDS")
      × (read_records rounds limit input ≡ read_records more limit input)
read_records-enough rounds more limit input all h k = (
  read_records-ne-out_of_rounds rounds limit input all h,
  read_records-rounds rounds more limit input all h k,
)

-- A block that is read is, byte for byte, the framing of its records, as many as were expected, and
-- each within the limit.
pub read_framed_records_sound :
    (limit count : ℕ) (block : Bytes) (records : List Bytes)
    → IsBytes block
    → read_framed_records limit count block ≡ ok records
    → (frame_records records ≡ ok block)
      × All (λ bytes. length bytes ≤ limit) records
      × (length records ≡ count)
unfolding read_framed_records
read_framed_records_sound limit count block records all h =
    let (read, read_eq, after) = >>=-eq-ok (read_records (length block) limit block) _ h in
    let (counted, whole) = invariant-eq-ok (length read == count) _ _ after in
    let same : read ≡ records = cc in
    let (framed, fits) = read_records_sound (length block) limit block read all read_eq in
    rw (← same) (framed, fits, (==_iff _ _).0 counted)
