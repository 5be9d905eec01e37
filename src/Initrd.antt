-- ===== src/Initrd.antt =====
-- The initial ramdisk, src/kernel/initrd.rs: a newc CPIO archive, as the list of its bytes. UTF-8 is
-- tested by core::str::from_utf8, which is a parameter.
use nek_os.Base.{
  ℕ, zero, suc, ◌+◌, ◌-◌, ◌*◌, ◌/◌, ◌^◌, ◌<◌, Bool, true, false, ◌&&◌, ◌||◌, Option, none, some,
  List, [], ◌∷◌, ◌++◌, length, take, drop, ltb, leb, ◌==◌, if◌then◌else◌, not, bit_and, and_then,
}
use nek_os.Base.Words.{not_usize}
pub mod Hex
pub mod Archive

abbrev pub header_size : ℕ
header_size = 110

abbrev pub max_files : ℕ
max_files = 16

pub record Entry : Type 0 where
  pub name : List ℕ
  pub data_bytes : List ℕ

-- The value of a hexadecimal digit.
unfoldable pub hex_digit : ℕ → Option ℕ
hex_digit byte =
    if leb b'0' byte && leb byte b'9'
    then some (byte - b'0')
    else if leb b'a' byte && leb byte b'f'
    then some (byte - b'a' + 10)
    else if leb b'A' byte && leb byte b'F'
    then some (byte - b'A' + 10)
    else none

abbrev pub checked : ℕ → Option ℕ
checked n = if ltb n (2 ^ 64) then some n else none

-- One round of the loop of `hex`.
unfoldable pub hex_step : ℕ → ℕ → Option ℕ
unfolding hex_digit
hex_step value byte =
    and_then (checked (value * 16))
      (λ shifted. and_then (hex_digit byte) (λ d. checked (shifted + d)))

unfoldable pub hex_from : ℕ → List ℕ → Option ℕ
unfolding hex_step
hex_from value [] = some value
hex_from value (byte ∷ bytes) = elim (hex_step value byte) [
  | none ↦ none
  | some v ↦ hex_from v bytes
]

unfoldable pub hex : List ℕ → Option ℕ
unfolding hex_from
hex bytes = hex_from 0 bytes

abbrev pub align4 : ℕ → ℕ
align4 value = bit_and (value + 3) (not_usize 3)

-- `&a[from..to]`
abbrev pub slice : List ℕ → ℕ → ℕ → List ℕ
slice a from to = take (to - from) (drop from a)

-- `==` on byte strings.
unfoldable pub same_bytes : List ℕ → List ℕ → Bool
same_bytes [] [] = true
same_bytes [] (b ∷ bs) = false
same_bytes (a ∷ as') [] = false
same_bytes (a ∷ as') (b ∷ bs) = a == b && same_bytes as' bs

abbrev pub magic : List ℕ
magic = b'0' ∷ b'7' ∷ b'0' ∷ b'7' ∷ b'0' ∷ b'1' ∷ []

abbrev pub trailer : List ℕ
trailer = b'T' ∷ b'R' ∷ b'A' ∷ b'I' ∷ b'L' ∷ b'E' ∷ b'R' ∷ b'!' ∷ b'!' ∷ b'!' ∷ []

abbrev pub dot : List ℕ
dot = b'.' ∷ []

module _ (is_utf8 : List ℕ → Bool) where
  -- The data of the entry whose name ends at `name_end`, and the position behind it.
  unfoldable pub read_data : List ℕ → List ℕ → ℕ → ℕ → Option (Entry × ℕ)
  read_data archive name name_end filesize =
      and_then (checked (align4 name_end + filesize)) λ data_end.
        if ltb (length archive) data_end
        then none
        else some (
          record { name = name; data_bytes = slice archive (align4 name_end) data_end },
          align4 data_end,
        )

  -- The name of the entry whose header ends at `name_start`, and the rest.
  unfoldable pub read_name : List ℕ → ℕ → ℕ → ℕ → Option (Entry × ℕ)
  unfolding read_data same_bytes
  read_name archive name_start namesize filesize =
      and_then (checked (name_start + namesize)) λ name_end.
        let name = slice archive name_start (name_end - 1) in
        if (namesize == 0 || ltb (length archive) name_end)
          || (not (is_utf8 name) || same_bytes name trailer)
        then none
        else read_data archive name name_end filesize

  -- One round of the loop of `init` at `pos`: the entry there and the next position, or the end of the
  -- archive.
  unfoldable pub read_entry : List ℕ → ℕ → Option (Entry × ℕ)
  unfolding hex same_bytes read_name
  read_entry archive pos =
      let header = slice archive pos (pos + header_size) in
      if leb (pos + header_size) (length archive) && same_bytes (take 6 header) magic
      then and_then (hex (slice header 94 102)) (λ namesize.
        and_then (hex (slice header 54 62))
          (λ filesize. read_name archive (pos + header_size) namesize filesize))
      else none

  -- The files found from `pos` on, with `count` found before; `none` where the fuel runs out.
  unfoldable pub scan : ℕ → List ℕ → ℕ → ℕ → Option (List Entry)
  unfolding read_entry
  scan zero archive pos count = none
  scan (suc fuel) archive pos count = elim (read_entry archive pos) [
    | none ↦ some []
    | some (e, next) ↦
        let keep = ltb count max_files && not (same_bytes e.name dot) in
        elim (scan fuel archive next (if keep then count + 1 else count)) [
          | none ↦ none
          | some es ↦ some (if keep then e ∷ es else es)
        ]
  ]

  -- `init`
  unfoldable pub load_archive : List ℕ → Option (List Entry)
  unfolding scan
  load_archive archive = scan (suc (length archive)) archive 0 0

-- `find`
unfoldable pub find : List ℕ → List Entry → Option (List ℕ)
unfolding same_bytes
find name [] = none
find name (e ∷ es) = if same_bytes e.name name then some e.data_bytes else find name es
