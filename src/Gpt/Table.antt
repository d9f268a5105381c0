-- ===== src/Gpt/Table.antt =====
-- `parse_gpt` against the table of entries that the header describes.
use rusty_cortex.Base.{
  ℕ, zero, suc, ◌+◌, ◌-◌, ◌*◌, ◌%◌, ◌^◌, ◌≤◌, ◌<◌, List, [], ◌∷◌, ◌++◌, ◌≡◌, refl, sym, ap, ◌∙◌,
  Option, none, some, leb, ltb, length, slice, arith, append-nil, append_assoc, inl, inr,
  Bool-cases, le→ltb, le→leb, lt→leb, ◌&&◌, All, All-append, All-take, All-drop, drop,
  length-append,
}
use rusty_cortex.Base.Words.{Bytes, IsByte, wrapping_add, wrapping_mul}
use rusty_cortex.Failure.{Result, ok, err, panic, >>=-eq-ok}
use rusty_cortex.Gpt.{
  EdlPartitionEntry, parse_gpt_entry, parse_gpt_header, push_some, read_entries, parse_gpt,
}
use rusty_cortex.Gpt.Entry.{IsSound, parse_gpt_entry-IsSound}
use native.Mathlib.Nat.{mod-eq_of_lt}

-- The partitions of the `n` entries that start at `offset`, in table order; empty and corrupted
-- entries are left out.
abbrev pub table : Bytes → ℕ → ℕ → ℕ → ℕ → ℕ → List EdlPartitionEntry
table raw_data sector_size lun entry_size offset zero = []
table raw_data sector_size lun entry_size offset (suc n) =
    push_some [] (parse_gpt_entry (slice raw_data offset entry_size) sector_size lun)
    ++ table raw_data sector_size lun entry_size (offset + entry_size) n

push_some-append {ℓ} :
    {A : Type ℓ} (xs : List A) (o : Option A) → push_some xs o ≡ xs ++ push_some [] o
push_some-append xs none = sym (append-nil xs)
push_some-append xs (some x) = refl

read_entries_step :
    (raw_data : Bytes) (sector_size lun start entry_size left i offset : ℕ)
    (parts : List EdlPartitionEntry)
    → start + i * entry_size ≡ offset
    → offset + entry_size ≤ length raw_data
    → length raw_data < 2 ^ 64
    → read_entries raw_data sector_size lun start entry_size (suc left) i parts
      ≡ read_entries raw_data sector_size lun start entry_size left
          (i + 1)
          (push_some parts (parse_gpt_entry (slice raw_data offset entry_size) sector_size lun))
unfolding read_entries
read_entries_step raw sector_size lun start size left i offset parts e fits small =
    let a : i * size % 2 ^ 64 ≡ i * size = mod-eq_of_lt (omega arith) in
    let b : (start + i * size) % 2 ^ 64 ≡ offset = rw e (mod-eq_of_lt (omega arith)) in
    let c : (offset + size) % 2 ^ 64 ≡ offset + size = mod-eq_of_lt (omega arith) in
    let d : offset + size - offset ≡ size = omega arith in
    rw a (
      rw b (
        rw c (
          rw (le→ltb (length raw) (offset + size) fits) (
            rw (le→leb offset (offset + size) (omega arith))
              (rw (le→leb (offset + size) (length raw) fits) (rw d))))))

read_entries-table :
    (raw_data : Bytes) (sector_size lun start entry_size left i offset : ℕ)
    (parts : List EdlPartitionEntry)
    → start + i * entry_size ≡ offset
    → offset + left * entry_size ≤ length raw_data
    → length raw_data < 2 ^ 64
    → read_entries raw_data sector_size lun start entry_size left i parts
      ≡ ok (parts ++ table raw_data sector_size lun entry_size offset left)
read_entries-table raw sector_size lun start size zero i offset parts e fits small =
    unfold read_entries in rw append-nil
read_entries-table raw sector_size lun start size (suc left) i offset parts e fits small =
    let o = parse_gpt_entry (slice raw offset size) sector_size lun in
    read_entries_step raw sector_size lun start size left i offset parts e (grind arith) small
    ∙ read_entries-table raw sector_size lun start size left (i + 1) (offset + size)
        (push_some parts o) (grind arith) (grind arith) small
    ∙ ap ok (rw (push_some-append parts o) (append_assoc parts (push_some [] o) _))

-- Where the header is accepted and its table lies inside the data, `parse_gpt` returns exactly the
-- partitions of the table, in order.
pub parse_gpt-table :
    (raw_data : Bytes) (sector_size lun num_entries entry_size entry_lba : ℕ)
    → sector_size * 2 ≤ length raw_data
    → parse_gpt_header (slice raw_data sector_size sector_size)
      ≡ ok (num_entries, entry_size, entry_lba)
    → entry_lba * sector_size + num_entries * entry_size ≤ length raw_data
    → length raw_data < 2 ^ 64
    → parse_gpt raw_data sector_size lun
      ≡ ok (table raw_data sector_size lun entry_size (entry_lba * sector_size) num_entries)
unfolding parse_gpt
parse_gpt-table raw sector_size lun n size lba long header fits small =
    let w : lba * sector_size % 2 ^ 64 ≡ lba * sector_size = mod-eq_of_lt (omega arith) in
    rw (le→ltb (length raw) (sector_size * 2) long) (
      rw header (
        rw w (
          read_entries-table raw sector_size lun (lba * sector_size) size n 0 (lba * sector_size) []
            (omega arith) fits small)))

-- The rounds of the loop on any data: none of them makes an unsound partition, and each adds one at
-- most.
abbrev AllSound : ℕ → ℕ → ℕ → Result (List EdlPartitionEntry) → Type 0
AllSound sector_size lun most (ok parts) =
    All (IsSound sector_size lun) parts × (length parts ≤ most)
AllSound sector_size lun most (err e) = Unit
AllSound sector_size lun most panic = Unit

push_some-IsSound :
    (sector_size lun : ℕ) (parts : List EdlPartitionEntry) (o : Option EdlPartitionEntry)
    → ((p : EdlPartitionEntry) → o ≡ some p → IsSound sector_size lun p)
    → All (IsSound sector_size lun) parts
    → All (IsSound sector_size lun) (push_some parts o)
      × (length (push_some parts o) ≤ length parts + 1)
push_some-IsSound sector_size lun parts none h k = (k, omega arith)
push_some-IsSound sector_size lun parts (some p) h k = (
  All-append (IsSound sector_size lun) parts (p ∷ []) k (h p refl, tt),
  omega (arith, length-append parts (p ∷ [])),
)

AllSound-weaken :
    (sector_size lun m n : ℕ) (r : Result (List EdlPartitionEntry))
    → m ≤ n
    → AllSound sector_size lun m r
    → AllSound sector_size lun n r
AllSound-weaken sector_size lun m n (ok parts) h (k, b) = (k, omega arith)
AllSound-weaken sector_size lun m n (err e) h k = tt
AllSound-weaken sector_size lun m n panic h k = tt

read_entries-AllSound :
    (raw_data : Bytes) (sector_size lun start entry_size left i : ℕ)
    (parts : List EdlPartitionEntry)
    → All IsByte raw_data
    → All (IsSound sector_size lun) parts
    → AllSound sector_size lun
        (length parts + left)
        (read_entries raw_data sector_size lun start entry_size left i parts)
unfolding read_entries
read_entries-AllSound raw sector_size lun start size zero i parts h k = (k, omega arith)
read_entries-AllSound raw sector_size lun start size (suc left) i parts h k =
    let offset = wrapping_add start (wrapping_mul i size) in
    let end = wrapping_add offset size in
    elim (Bool-cases (ltb (length raw) end)) [
      | inl stop ↦ rw stop (k, omega arith)
      | inr go ↦ elim (Bool-cases (leb offset end && leb end (length raw))) [
        | inl fits ↦
            let entry = slice raw offset (end - offset) in
            let o = parse_gpt_entry entry sector_size lun in
            let (sound, one) =
              push_some-IsSound sector_size lun parts o
                (λ p.
                  parse_gpt_entry-IsSound entry sector_size lun (
                    All-take IsByte (end - offset) (drop offset raw)
                      (All-drop IsByte offset raw h)))
                k in
            rw go (
              rw fits (
                AllSound-weaken sector_size lun (length (push_some parts o) + left)
                  (length parts + suc left) _ (omega arith)
                  (read_entries-AllSound raw sector_size lun start size left (i + 1)
                    (push_some parts o) h sound)))
        | inr bad ↦ rw go (rw bad tt)
      ]
    ]

-- Whatever bytes are given: every partition that `parse_gpt` returns is sound.
pub parse_gpt-IsSound :
    (raw_data : Bytes) (sector_size lun : ℕ) {parts : List EdlPartitionEntry}
    → All IsByte raw_data
    → parse_gpt raw_data sector_size lun ≡ ok parts
    → All (IsSound sector_size lun) parts
unfolding parse_gpt
parse_gpt-IsSound raw sector_size lun h e = elim (Bool-cases (ltb (length raw) (sector_size * 2))) [
  | inl short ↦ cc (rw short at e)
  | inr long ↦
      let ((n, size, lba), p, q) =
        >>=-eq-ok (parse_gpt_header (slice raw sector_size sector_size)) _ (rw long at e) in
      (rw q at (
        read_entries-AllSound raw sector_size lun (wrapping_mul lba sector_size) size n 0 [] h
          tt)).0
]

read_entries_panic :
    (raw_data : Bytes) (sector_size lun start entry_size left : ℕ) (parts : List EdlPartitionEntry)
    → start < 2 ^ 64
    → entry_size < 2 ^ 64
    → 2 ^ 64 ≤ start + entry_size
    → start + entry_size ≤ 2 ^ 64 + length raw_data
    → read_entries raw_data sector_size lun start entry_size (suc left) 0 parts ≡ panic
unfolding read_entries
read_entries_panic raw sector_size lun start size left parts hs small low high =
    let a : (start + 0 * size % 2 ^ 64) % 2 ^ 64 ≡ start = omega arith in
    let b : (start + size) % 2 ^ 64 ≡ start + size - 2 ^ 64 = omega arith in
    rw a (
      rw b (
        rw (le→ltb (length raw) (start + size - 2 ^ 64) (omega arith))
          (rw (lt→leb start (start + size - 2 ^ 64) (omega arith)))))

-- An accepted header with at least one entry, whose first entry starts inside the 64-bit range and
-- ends past it by at most the data's length, aborts the program: the end wraps to a small number
-- that passes the length test, and the slice is reversed.
pub parse_gpt-panic :
    (raw_data : Bytes) (sector_size lun num_entries entry_size entry_lba : ℕ)
    → sector_size * 2 ≤ length raw_data
    → parse_gpt_header (slice raw_data sector_size sector_size)
      ≡ ok (suc num_entries, entry_size, entry_lba)
    → entry_size < 2 ^ 64
    → 2 ^ 64 ≤ entry_lba * sector_size % 2 ^ 64 + entry_size
    → entry_lba * sector_size % 2 ^ 64 + entry_size ≤ 2 ^ 64 + length raw_data
    → parse_gpt raw_data sector_size lun ≡ panic
unfolding parse_gpt
parse_gpt-panic raw sector_size lun n size lba long header small low high =
    rw (le→ltb (length raw) (sector_size * 2) long) (
      rw header (
        read_entries_panic raw sector_size lun (lba * sector_size % 2 ^ 64) size n [] (omega arith)
          small low high))
