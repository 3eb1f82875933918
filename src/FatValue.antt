-- ===== src/FatValue.antt =====
-- lib/common/fat_value.hpp: the versions of one value, as records that a single writer appends. Two
-- are in place, the others in a block that is allocated when they are needed. An allocation does not
-- fail here.
pub mod Laws
pub mod Append
mod Examples
use contrees_fat_node.Prelude.{
  ℕ, ◌+◌, ◌-◌, ◌*◌, Bool, true, false, not, ◌&&◌, ◌||◌, Option, none, some, List, [], ◌∷◌, ltb, leb,
  ◌==◌, if◌then◌else◌, length, replicate,
}

-- `struct record`, and `values[i]` with `versions[i]`. Version zero marks an unpublished record.
pub record Record : Type 0 where
  pub value : ℕ
  pub version : ℕ

-- `struct fat_value`: the records in place, and those of `extra`, whose length is its `capacity`.
pub record FatValue : Type 0 where
  pub values : List Record
  pub extra : Option (List Record)

abbrev pub unpublished : Record
unpublished = record { value = 0; version = 0 }

abbrev pub no_values : FatValue
no_values = record { values = replicate 2 unpublished; extra = none }

-- The body of both loops of `read`: the best version so far, and its value.
unfoldable pub read_record : ℕ → ℕ × ℕ → Record → ℕ × ℕ
read_record snapshot (best, base) r =
    if not (r.version == 0) && leb r.version snapshot && ltb best r.version
    then (r.version, r.value)
    else (best, base)

unfoldable pub read_records : ℕ → ℕ × ℕ → List Record → ℕ × ℕ
unfolding read_record
read_records snapshot found [] = found
read_records snapshot found (r ∷ rs) = read_records snapshot (read_record snapshot found r) rs

abbrev pub records_of : Option (List Record) → List Record
records_of none = []
records_of (some rs) = rs

unfoldable pub read : FatValue → ℕ → ℕ → ℕ
unfolding read_records
read f base snapshot =
    (read_records snapshot (read_records snapshot (0, base) f.values) (records_of f.extra)).1

-- The loop that writes the first unpublished record: the records, and whether there was one.
unfoldable pub publish : List Record → Record → List Record × Bool
publish [] x = ([], false)
publish (r ∷ rs) x =
    let rest = publish rs x in if r.version == 0 then (x ∷ rs, true) else (r ∷ rest.0, rest.1)

-- The records of `extra`, allocated when there are none.
unfoldable pub extra_of : ℕ → Option (List Record) → List Record
extra_of slots none = replicate (slots - 2) unpublished
extra_of slots (some rs) = rs

unfoldable pub append_extra : FatValue → ℕ → Record → FatValue × Bool
unfolding publish extra_of
append_extra f slots x =
    let (rs, appended) = publish (extra_of slots f.extra) x in
    (record f { extra = some rs }, appended)

-- `append(slots, version, value)`.
unfoldable pub append : FatValue → ℕ → ℕ → ℕ → FatValue × Bool
unfolding publish append_extra
append f slots version value =
    if version == 0 || not (slots == 2 || slots == 4 || slots == 8)
    then (f, false)
    else (let x : Record = record { value = value; version = version } in
        let (rs, appended) = publish f.values x in
        if appended
        then (record f { values = rs }, true)
        else if slots == 2
        then (f, false)
        else append_extra f slots x)

-- `bytes` and `allocated_bytes`.
unfoldable pub bytes : ℕ → ℕ
bytes capacity = 8 + capacity * 16

unfoldable pub allocated_bytes : FatValue → ℕ
unfolding bytes
allocated_bytes f = elim f.extra [ none ↦ 0 | some rs ↦ bytes (length rs) ]
