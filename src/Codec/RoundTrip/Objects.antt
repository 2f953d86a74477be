-- ===== src/Codec/RoundTrip/Objects.antt =====
-- The entries of an object whose keys ascend: sorting leaves them, and so does assigning them one
-- after the other to an empty object.
use glare9_provenance.Prelude.{Bytes, ◌≡◌, refl, ap, true, false, ◌∙◌, sym, inl, inr, Bool-cases}
use glare9_provenance.Prelude.Octets.{before, equals, before-asymm, before_irrefl, equals→eq}
use glare9_provenance.Codec.Utf8.{Text, utf8}
use glare9_provenance.Codec.Value.{Value, Fields, no_fields, field, KeysAfter, FieldsAreNormal}
use glare9_provenance.Codec.Encode.{insert_field, sort_fields}
use glare9_provenance.Codec.Decode.{assign, assign_all}

-- The keys of the fields strictly ascend.
abbrev pub Ascends : Fields → Type 0
Ascends no_fields = Unit
Ascends (field k v fs) = KeysAfter (utf8 k) fs × Ascends fs

pub FieldsAreNormal-Ascends : (fs : Fields) → FieldsAreNormal fs → Ascends fs
FieldsAreNormal-Ascends no_fields h = tt
FieldsAreNormal-Ascends (field k v fs) (plain, after, normal, others) =
    (after, FieldsAreNormal-Ascends fs others)

insert_field-first :
    (k : Text) (v : Value) (fs : Fields)
    → KeysAfter (utf8 k) fs
    → insert_field k v fs ≡ field k v fs
unfolding insert_field
insert_field-first k v no_fields h = refl
insert_field-first k v (field j w fs) (first, others) = rw (before-asymm _ _ first)

pub sort_fields-Ascends : (fs : Fields) → Ascends fs → sort_fields fs ≡ fs
unfolding sort_fields
sort_fields-Ascends no_fields h = refl
sort_fields-Ascends (field k v fs) (after, others) =
    rw (sort_fields-Ascends fs others) (insert_field-first k v fs after)

append_fields : Fields → Fields → Fields
append_fields no_fields gs = gs
append_fields (field k v fs) gs = field k v (append_fields fs gs)

-- Every key of the fields comes before `key`.
abbrev KeysBefore : Fields → Bytes → Type 0
KeysBefore no_fields key = Unit
KeysBefore (field k v fs) key = (before (utf8 k) key ≡ true) × KeysBefore fs key

abbrev AllBefore : Fields → Fields → Type 0
AllBefore fs no_fields = Unit
AllBefore fs (field k v gs) = KeysBefore fs (utf8 k) × AllBefore fs gs

equals_of_before : (k j : Text) → before (utf8 k) (utf8 j) ≡ true → equals k j ≡ false
equals_of_before k j h = elim (Bool-cases (equals k j)) [
  | inl same ↦ cc (equals→eq k j same, before_irrefl (utf8 k))
  | inr apart ↦ apart
]

assign-fresh :
    (k : Text) (v : Value) (fs : Fields)
    → KeysBefore fs (utf8 k)
    → assign k v fs ≡ append_fields fs (field k v no_fields)
unfolding assign append_fields
assign-fresh k v no_fields h = refl
assign-fresh k v (field j w fs) (first, others) =
    rw (equals_of_before j k first) (ap (field j w) (assign-fresh k v fs others))

append_fields-nil : (fs : Fields) → append_fields fs no_fields ≡ fs
unfolding append_fields
append_fields-nil no_fields = refl
append_fields-nil (field k v fs) = ap (field k v) (append_fields-nil fs)

append_fields-snoc :
    (k : Text) (v : Value) (fs gs : Fields)
    → append_fields (append_fields fs (field k v no_fields)) gs ≡ append_fields fs (field k v gs)
unfolding append_fields
append_fields-snoc k v no_fields gs = refl
append_fields-snoc k v (field j w fs) gs = ap (field j w) (append_fields-snoc k v fs gs)

KeysBefore-snoc :
    (k : Text) (v : Value) (fs : Fields) (key : Bytes)
    → KeysBefore fs key
    → before (utf8 k) key ≡ true
    → KeysBefore (append_fields fs (field k v no_fields)) key
unfolding append_fields
KeysBefore-snoc k v no_fields key h last = (last, tt)
KeysBefore-snoc k v (field j w fs) key (first, others) last =
    (first, KeysBefore-snoc k v fs key others last)

AllBefore-snoc :
    (k : Text) (v : Value) (fs gs : Fields)
    → AllBefore fs gs
    → KeysAfter (utf8 k) gs
    → AllBefore (append_fields fs (field k v no_fields)) gs
AllBefore-snoc k v fs no_fields h after = tt
AllBefore-snoc k v fs (field j w gs) (first, others) (next, after) =
    (KeysBefore-snoc k v fs (utf8 j) first next, AllBefore-snoc k v fs gs others after)

assign_all-append :
    (fs gs : Fields) → Ascends gs → AllBefore fs gs → assign_all fs gs ≡ append_fields fs gs
unfolding assign_all
assign_all-append fs no_fields ascends before_all = sym (append_fields-nil fs)
assign_all-append fs (field k v gs) (after, ascends) (first, others) =
    rw (assign-fresh k v fs first) (
      assign_all-append (append_fields fs (field k v no_fields)) gs ascends
        (AllBefore-snoc k v fs gs others after)
      ∙ append_fields-snoc k v fs gs)

AllBefore-empty : (gs : Fields) → AllBefore no_fields gs
AllBefore-empty no_fields = tt
AllBefore-empty (field k v gs) = (tt, AllBefore-empty gs)

pub assign_all-Ascends : (fs : Fields) → Ascends fs → assign_all no_fields fs ≡ fs
unfolding append_fields
assign_all-Ascends fs ascends = assign_all-append no_fields fs ascends (AllBefore-empty fs)
