-- ===== src/Format/Records/RoundTrip.antt =====
-- The records of a block come back, and what is read is the whole block.
use glare9_provenance.Prelude.{
  ℕ, zero, suc, ◌+◌, ◌≤◌, ◌<◌, Bytes, List, [], ◌∷◌, ◌++◌, leb, ==_refl, ◌≡◌, refl, ap, length,
  take-append, drop-append, length-append, append_assoc, ok, arith, le→leb, invariant-eq-ok,
  >>=-eq-ok, All,
}
use glare9_provenance.Prelude.Octets.{write_u32, read_u32-write_u32}
use glare9_provenance.Format.Records.{
  frame_record, read_record, read_records, read_framed_records, frame_records,
}

read_record-frame_record :
    (limit : ℕ) (bytes framed rest : Bytes)
    → frame_record bytes ≡ ok framed
    → length bytes ≤ limit
    → read_record limit (framed ++ rest) ≡ ok (bytes, rest)
unfolding frame_record read_record
read_record-frame_record limit bytes framed rest h fits =
    let (short, whole) = invariant-eq-ok (leb (length bytes) 0xffff_ffff) _ _ h in
    let parts : write_u32 (length bytes) ++ bytes ≡ framed = cc in
    rw (
      ← parts,
      append_assoc (write_u32 (length bytes)) bytes rest,
      read_u32-write_u32 (length bytes) (bytes ++ rest) (ground arith),
      read_record,
      le→leb _ _ fits,
      le→leb (length bytes) (length (bytes ++ rest)) (omega (arith, length-append bytes rest)),
      take-append bytes rest,
      drop-append bytes rest,
    )

frame_record-cons :
    (bytes framed : Bytes) → frame_record bytes ≡ ok framed → length framed ≡ length bytes + 4
unfolding frame_record write_u32
frame_record-cons bytes framed h =
    let (short, whole) = invariant-eq-ok (leb (length bytes) 0xffff_ffff) _ _ h in ground arith

read_records-step :
    (rounds limit : ℕ) (bytes input rest : Bytes) (others : List Bytes)
    → 0 < length input
    → read_record limit input ≡ ok (bytes, rest)
    → read_records rounds limit rest ≡ ok others
    → read_records (suc rounds) limit input ≡ ok (bytes ∷ others)
unfolding read_records
read_records-step rounds limit bytes [] rest others nonempty p q = absurd (omega arith)
read_records-step rounds limit bytes (b ∷ input) rest others nonempty p q = ground arith

read_records-frame_records :
    (records : List Bytes) (rounds limit : ℕ) (block : Bytes)
    → frame_records records ≡ ok block
    → All (λ bytes. length bytes ≤ limit) records
    → length block ≤ rounds
    → read_records rounds limit block ≡ ok records
unfolding frame_records
read_records-frame_records [] rounds limit block h fit enough =
    let empty : [] ≡ block = cc in rw (← empty) (unfold read_records in refl)
read_records-frame_records (bytes ∷ others) rounds limit block h (fit, fits) enough =
    let (framed, framed_eq, after) = >>=-eq-ok (frame_record bytes) _ h in
    let (rest, rest_eq, whole) = >>=-eq-ok (frame_records others) _ after in
    let parts : framed ++ rest ≡ block = cc in
    let size = frame_record-cons bytes framed framed_eq in
    let total = length-append framed rest in
    let enough' : suc (length rest) ≤ rounds = omega (arith, ap length parts) in
    rw (← parts) (
      more_rounds rounds limit bytes (framed ++ rest) rest others (omega arith)
        (read_record-frame_record limit bytes framed rest framed_eq fit) enough'
        (λ n e. read_records-frame_records others n limit rest rest_eq fits e))
  where
    more_rounds :
        (rounds limit : ℕ) (bytes input rest : Bytes) (others : List Bytes)
        → 0 < length input
        → read_record limit input ≡ ok (bytes, rest)
        → suc (length rest) ≤ rounds
        → ((n : ℕ) → length rest ≤ n → read_records n limit rest ≡ ok others)
        → read_records rounds limit input ≡ ok (bytes ∷ others)
    more_rounds zero limit bytes input rest others nonempty p e ih = absurd (omega arith)
    more_rounds (suc n) limit bytes input rest others nonempty p e ih =
        read_records-step n limit bytes input rest others nonempty p (ih n (omega arith))

-- The records that were framed into a block, each within the limit, are read back.
pub read_framed_records-frame_records :
    (limit : ℕ) (records : List Bytes) (block : Bytes)
    → frame_records records ≡ ok block
    → All (λ bytes. length bytes ≤ limit) records
    → read_framed_records limit (length records) block ≡ ok records
unfolding read_framed_records
read_framed_records-frame_records limit records block h fits = rw (
  read_records-frame_records records (length block) limit block h fits (omega arith),
  ==_refl (length records),
)
