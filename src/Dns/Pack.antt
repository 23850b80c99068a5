-- ===== src/Dns/Pack.antt =====
-- Writing a message: Pack, packCompressedName, appendRdata and rdataName of
-- internal/dns/message.go. `names` is the map from the suffixes written so far to their offsets.
use km_resolv.Prelude.{
  ℕ, ◌+◌, ◌/◌, ◌%◌, Bool, ◌&&◌, ◌||◌, Option, none, some, List, [], ◌∷◌, ◌++◌, Text, Result, ok,
  err, ◌==◌, nat_eq, list_eq, ltb, leb, length, drop, if◌then◌else◌, Map, lookup, insert,
  split_dots, join_dots, to_lower,
}
use mathlib.Core.List.{reverse}
use km_resolv.Dns.{Question, Rr, Message, type_ns, type_cname, type_ptr, type_mx}
use km_resolv.Dns.Name.{parse_name, pack_label, parse_uncompressed_name}

-- the bytes of PutUint16, of what is below 65536
unfoldable pub put_u16 : ℕ → Text
put_u16 n = (n / 256 % 256) ∷ (n % 256) ∷ []

-- the bytes of PutUint32, of what is below 2 ^ 32
unfoldable pub put_u32 : ℕ → Text
put_u32 n = put_u16 (n / 65536) ++ put_u16 (n % 65536)

abbrev pub Names : Type 0
Names = Map Text ℕ

unfoldable pub drop_dots : Text → Text
drop_dots [] = []
drop_dots (c ∷ s) = let rest = drop_dots s in if c == b'.' then rest else c ∷ s

-- strings.Trim(s, ".")
unfoldable pub trim_dots : Text → Text
trim_dots s = reverse (drop_dots (reverse (drop_dots s)))

-- names[suffix], if it can be pointed to
unfoldable pub pointer_to : Text → Names → Option ℕ
pointer_to suffix names = elim (lookup suffix names) [
  | none ↦ none
  | some off ↦ if leb off 0x3FFF then some off else none
]

-- the loop of packCompressedName over the labels that are left
unfoldable pub pack_suffix : Text → List Text → Names → Text × Names
pack_suffix buf [] names = (buf ++ 0 ∷ [], names)
pack_suffix buf (label ∷ labels) names =
    let suffix = to_lower (join_dots (label ∷ labels)) in
    let names' = if leb (length buf) 0x3FFF then insert suffix (length buf) names else names in
    let skip = pack_suffix buf labels names in
    let next = pack_suffix (buf ++ pack_label label) labels names' in
    if label == [] then skip else elim (pointer_to suffix names) [
      | some off ↦ (buf ++ (192 + off / 256) ∷ (off % 256) ∷ [], names)
      | none ↦ next
    ]

unfoldable pub pack_compressed_name : Text → Text → Names → Text × Names
pack_compressed_name buf name names =
    let name' = trim_dots name in
    if name' == [] then (buf ++ 0 ∷ [], names) else pack_suffix buf (split_dots name') names

abbrev pub name_of : Result (Text × ℕ) → Option Text
name_of (ok (name, _)) = some name
name_of (err _) = none

-- rdataName: the name in the rdata, read from the packet or else from the rdata itself; `none`
-- is the false of the source
unfoldable pub rdata_name : Rr → Text → Option Text
rdata_name rr raw =
    let off = if rr.type == type_mx then rr.offset + 2 else rr.offset in
    let own =
      if rr.type == type_mx
      then (if ltb (length rr.rdata) 2
          then none
          else name_of (parse_uncompressed_name (drop 2 rr.rdata)))
      else name_of (parse_uncompressed_name rr.rdata) in
    if leb 12 off && ltb off (length raw)
    then elim (name_of (parse_name raw off)) [ some name ↦ some name | none ↦ own ]
    else own

-- the two bytes of an MX preference
unfoldable pub mx_prefix : Rr → Text
mx_prefix rr = elim rr.rdata [
  | a ∷ r ↦ elim r [ b ∷ _ ↦ a ∷ b ∷ [] | [] ↦ 0 ∷ 0 ∷ [] ]
  | [] ↦ 0 ∷ 0 ∷ []
]

abbrev pub has_rdata_name : ℕ → Bool
has_rdata_name t = t == type_ns || t == type_cname || t == type_ptr || t == type_mx

unfoldable pub append_rdata : Text → Rr → Text → Names → Text × Names
append_rdata buf rr raw names =
    let buf' = if rr.type == type_mx then buf ++ mx_prefix rr else buf in
    if has_rdata_name rr.type
    then elim (rdata_name rr raw) [
      | some name ↦ pack_compressed_name buf' name names
      | none ↦ (buf' ++ rr.rdata, names)
    ]
    else (buf ++ rr.rdata, names)

unfoldable pub pack_question : Text → Question → Names → Text × Names
pack_question buf q names =
    let (buf', names') = pack_compressed_name buf q.name names in
    (buf' ++ (put_u16 q.type ++ put_u16 q.class), names')

-- A record of a section. The source reserves ten bytes, appends the rdata and fills the ten in;
-- here the rdata is written behind ten zeros, and then the ten are replaced.
unfoldable pub pack_rr : Text → Rr → Text → Names → Text × Names
pack_rr buf rr raw names =
    let (named, names') = pack_compressed_name buf rr.name names in
    let zeros : Text = 0 ∷ 0 ∷ 0 ∷ 0 ∷ 0 ∷ 0 ∷ 0 ∷ 0 ∷ 0 ∷ 0 ∷ [] in
    let start = length named + 10 in
    let (full, names'') = append_rdata (named ++ zeros) rr raw names' in
    let written = drop start full in
    let fixed =
      put_u16 rr.type ++ (put_u16 rr.class ++ (put_u32 rr.ttl ++ put_u16 (length written))) in
    (named ++ (fixed ++ written), names'')

unfoldable pub pack_questions : Text → List Question → Names → Text × Names
pack_questions buf [] names = (buf, names)
pack_questions buf (q ∷ qs) names =
    let (buf', names') = pack_question buf q names in pack_questions buf' qs names'

unfoldable pub pack_rrs : Text → List Rr → Text → Names → Text × Names
pack_rrs buf [] raw names = (buf, names)
pack_rrs buf (rr ∷ rrs) raw names =
    let (buf', names') = pack_rr buf rr raw names in pack_rrs buf' rrs raw names'

-- the twelve bytes of the header; the counts are those of the sections
unfoldable pub pack_header : Message → Text
pack_header m =
    put_u16 m.header.id
    ++ (put_u16 m.header.flags
        ++ (put_u16 (length m.questions)
            ++ (put_u16 (length m.answers)
                ++ (put_u16 (length m.authority) ++ put_u16 (length m.additional)))))

-- Pack never returns an error.
unfoldable pub pack : Message → Text
pack m =
    let (b, n) = pack_questions (pack_header m) m.questions [] in
    let (b1, n1) = pack_rrs b m.answers m.raw n in
    let (b2, n2) = pack_rrs b1 m.authority m.raw n1 in (pack_rrs b2 m.additional m.raw n2).0

-- To run the functions above in a test.
unfoldable pub program : Unit {0}
unfolding lookup insert pack_label to_lower join_dots split_dots parse_name parse_uncompressed_name
    put_u16 put_u32 drop_dots trim_dots pointer_to pack_suffix pack_compressed_name rdata_name
    mx_prefix append_rdata pack_question pack_rr pack_questions pack_rrs pack_header pack
program = tt
